-- ===== src/Query/Joins/Matches.antt =====
-- The right rows that a left row joins with, by the hash index and by the join condition.
use yt_media_tools.Prelude.{
  Bool, false, not, some, List, [], ◌∷◌, any, arith, ◌≡◌, refl, sym, ◌∙◌, Option-cases, inl, inr,
  keep,
}
use yt_media_tools.Query.Like.{equal_text}
use yt_media_tools.Query.Relations.{Row}
use yt_media_tools.Query.Joins.{joins, is_empty}
use yt_media_tools.Query.Indexes.{
  FieldPair, lefts, rights, Index, hash_join_index, hash_join_matches, Join, collect,
  nonempty_pairs, equality_join_key_fields,
}
use yt_media_tools.Query.Indexes.Keys.{agree_all, collect-agree_all}
use yt_media_tools.Query.Indexes.Rows.{hash_join_matches-keep}

joins-agree_all :
    (j : Join) (ps : List FieldPair) (l r : Row)
    → equal_text j.left_alias j.right_alias ≡ false
    → equality_join_key_fields j ≡ some ps
    → joins j l r ≡ agree_all l r ps
unfolding equality_join_key_fields joins
joins-agree_all j ps l r d h =
    elim (Option-cases (collect j.left_alias j.right_alias j.predicate)) [
      | inl e ↦ let n = rw (e, nonempty_pairs) at h in cc n
      | inr ([], e) ↦ let n = rw (e, nonempty_pairs) at h in cc n
      | inr (q ∷ qs, e) ↦
          let n = rw (e, nonempty_pairs) at h in
          cc (n, collect-agree_all j.left_alias j.right_alias l r j.predicate (q ∷ qs) d e)
    ]

keep_ext :
    (p q : Row → Bool) (rows : List Row) → ((r : Row) → p r ≡ q r) → keep p rows ≡ keep q rows
keep_ext p q [] h = refl
keep_ext p q (r ∷ rows) h = rw (h r, keep_ext p q rows h) refl

-- The indexed candidates of a left row are the right rows that join with it.
pub matches-joins :
    (j : Join) (ps : List FieldPair) (l : Row) (right matches : List Row) (index : Index)
    → equal_text j.left_alias j.right_alias ≡ false
    → equality_join_key_fields j ≡ some ps
    → hash_join_index right (rights ps) ≡ some index
    → hash_join_matches l (lefts ps) index ≡ some matches
    → matches ≡ keep (joins j l) right
matches-joins j ps l right matches index d f h k =
    hash_join_matches-keep l ps right matches index h k
    ∙ keep_ext (λ r. agree_all l r ps) (joins j l) right (λ r. sym (joins-agree_all j ps l r d f))

pub any-keep : (p : Row → Bool) (rows : List Row) → not (is_empty (keep p rows)) ≡ any p rows
any-keep p [] = refl
any-keep p (r ∷ rows) = ground (arith, any-keep p rows)
