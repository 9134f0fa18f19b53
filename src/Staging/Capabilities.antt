-- ===== src/Staging/Capabilities.antt =====
-- yt_media_tools/source_capabilities.py and _field_properties of query_properties.py: the fields whose
-- value at an enumeration is declared exact.
use yt_media_tools.Prelude.{Bool, true, false, List, [], ◌∷◌, Text, codes, if◌then◌else◌}
use yt_media_tools.Query.Like.{equal_text}
use yt_media_tools.Query.Evaluator.{Runtime}

pub data Quality : Type 0 where
  exact approximate unavailable : Quality

-- `FieldCapability`, as far as an enumeration by yt-dlp reads it
pub record FieldCapability : Type 0 where
  pub field : Text
  pub ytdlp_flat : Quality

abbrev capability : Text → Quality → FieldCapability
capability field ytdlp_flat = record { field = field; ytdlp_flat = ytdlp_flat }

-- `_FIELD_CAPABILITIES`
abbrev pub field_capabilities : List FieldCapability
field_capabilities =
    capability (codes "id") exact
    ∷ (capability (codes "title") exact
        ∷ (capability (codes "upload_date") approximate
            ∷ (capability (codes "publish_date") unavailable
                ∷ (capability (codes "date") approximate
                    ∷ (capability (codes "duration") approximate
                        ∷ (capability (codes "view_count") approximate
                            ∷ (capability (codes "views") approximate
                                ∷ (capability (codes "source_index") exact ∷ []))))))))

-- The quality under a casefolded name. Every field without a declaration is unavailable.
unfoldable pub field_capability : List FieldCapability → Text → Quality
unfolding equal_text
field_capability [] key = unavailable
field_capability (c ∷ cs) key =
    let rest = field_capability cs key in if equal_text c.field key then c.ytdlp_flat else rest

abbrev is_exact : Quality → Bool
is_exact exact = true
is_exact approximate = false
is_exact unavailable = false

module _ ⦃rt : Runtime⦄ where
  -- `FacetCapabilities.field`: the overrides of a facet come first
  unfoldable pub flat_quality : List FieldCapability → Text → Quality
  unfolding field_capability equal_text
  flat_quality [] name = field_capability field_capabilities (rt.casefold name)
  flat_quality (c ∷ overrides) name =
      let rest = flat_quality overrides name in
      if equal_text (rt.casefold c.field) (rt.casefold name) then c.ytdlp_flat else rest

  -- `capability.ytdlp_flat == EXACT`
  unfoldable pub is_enumerated : List FieldCapability → Text → Bool
  unfolding flat_quality
  is_enumerated overrides name = is_exact (flat_quality overrides name)
