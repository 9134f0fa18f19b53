-- ===== src/Query/Evaluator/Laws.antt =====
-- The algebra of the three-valued connectives.
use yt_media_tools.Prelude.{none, refl, ap, [], ◌∷◌, Text, if◌then◌else◌, ◌≡◌, arith}
use yt_media_tools.Query.Model.{Field, Connective, and, or, Truth}
use yt_media_tools.Query.Like.{equal_text}
use yt_media_tools.Query.Evaluator.{Record, record_value, evaluate_boolean_binary, evaluate_not}

abbrev pub other : Connective → Connective
other and = or
other or = and

pub binary_comm :
    (op : Connective) (a b : Truth)
    → evaluate_boolean_binary op a b ≡ evaluate_boolean_binary op b a
unfolding evaluate_boolean_binary
binary_comm op a b = ground arith

pub binary_assoc :
    (op : Connective) (a b c : Truth)
    → evaluate_boolean_binary op (evaluate_boolean_binary op a b) c
      ≡ evaluate_boolean_binary op a (evaluate_boolean_binary op b c)
unfolding evaluate_boolean_binary
binary_assoc op a b c = ground arith

pub binary_idem : (op : Connective) (a : Truth) → evaluate_boolean_binary op a a ≡ a
unfolding evaluate_boolean_binary
binary_idem op a = ground arith

-- NOT of an AND is the OR of the negations, and NOT of an OR their AND, UNKNOWN included.
not-binary :
    (op : Connective) (a b : Truth)
    → evaluate_not (evaluate_boolean_binary op a b)
      ≡ evaluate_boolean_binary (other op) (evaluate_not a) (evaluate_not b)
unfolding evaluate_boolean_binary
not-binary op a b = ground arith

-- A field by its name alone: a record does not look at the kind.
abbrev pub named : Text → Field
named name = record { name = name; kind = none }

pub record_value-named : (r : Record) (f : Field) → record_value r (named f.name) ≡ record_value r f
unfolding record_value
record_value-named [] f = refl
record_value-named ((k, v) ∷ r) f =
    ap (λ x. if equal_text k f.name then v else x) (record_value-named r f)
