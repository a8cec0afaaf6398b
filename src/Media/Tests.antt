-- ===== src/Media/Tests.antt =====
-- crates/ikigai-core/src/media.rs: media types as they are written.
use ikigai_core.Media.Symmetry.{media_types_agree_comm}
use ikigai_core.Prelude.{
  ℕ, zero, suc, ◌+◌, ◌-◌, ◌*◌, ◌/◌, ◌%◌, ◌^◌, ◌≤◌, ◌<◌, min, max, Str, codes, Eq, ◌==◌, nat_eq,
  list_eq, option_eq, eq_cases, eq_refl, eq→≡, ≡→eq, ◌≡◌, refl, sym, ap, ◌∙◌, ◌≢◌, ◌↔◌, ◌⊎◌, inl,
  inr, Bool, true, false, not, ◌&&◌, ◌||◌, List, [], ◌∷◌, ◌++◌, map, reverse, Option, none, some,
  Result, ok, err, ltb, leb, any, all, All, keep, length, starts_with, strip_prefix, is_some,
  is_none, if◌then◌else◌, arith, Bool-cases, Option-cases, str_cmp, str_cmp_eq, str_cmp_refl,
}
use ikigai_core.Media.{media_types_agree}

abbrev csv : Str
csv = codes "text/csv; header=present"

abbrev loud_csv : Str
loud_csv = codes "Text/CSV; charset=\"UTF-8\""

agreement :
    (media_types_agree csv loud_csv ≡ true)
    × (media_types_agree (codes "text/csv; charset=utf-8") loud_csv ≡ true)
    × (media_types_agree (codes "text/csv; charset=utf-8") (codes "text/csv; charset=iso-8859-1")
        ≡ false)
    × (media_types_agree csv (codes "text/tab-separated-values") ≡ false)
unfolding media_types_agree ikigai_core.Prelude.list_beq
agreement = (refl, refl, refl, refl)

-- A side that states a parameter twice answers otherwise from the other side.
repeated :
    (media_types_agree (codes "a/b;x=1;x=2") (codes "a/b;x=1") ≡ true)
    × (media_types_agree (codes "a/b;x=1") (codes "a/b;x=1;x=2") ≡ false)
unfolding media_types_agree ikigai_core.Prelude.list_beq
repeated = (refl, refl)

media_types_agree_comm_example : media_types_agree csv loud_csv ≡ media_types_agree loud_csv csv
unfolding ikigai_core.Media.media_type_parts ikigai_core.Media.find
media_types_agree_comm_example = media_types_agree_comm csv loud_csv (refl, tt) (refl, tt)
