-- ===== src/Consolidation/Runner/Recorded.antt =====
-- Which watermarks a run leaves as they are.
use recuerdos_ai.Prelude.{
  ℕ, ◌≡◌, ◌≢◌, refl, sym, ap, ◌∙◌, true, false, Option, none, some, List, [], ◌∷◌, arith, any_where,
  keep, All, inl, inr, Bool-cases,
}
use recuerdos_ai.Prelude.Dict
use recuerdos_ai.Shared.Error.{RaError, Result, err}
use recuerdos_ai.Text.{Text}
use recuerdos_ai.Identity.UserContext.{UserContext}
use recuerdos_ai.Consolidation.Groups.{GroupKey, same_key}
use recuerdos_ai.Consolidation.Planner.{ProcessedGroup}
use recuerdos_ai.Consolidation.Watermarks.{
  Watermarks, WatermarkKey, watermark_key, or_blank, last_max_updated_at, record_watermark,
  watermark_eq, same_watermark_iff,
}
use recuerdos_ai.Consolidation.Runner.{record_all, without_failed}

-- No subcategory that is there is blank.
abbrev pub NonBlank : GroupKey → Type 0
NonBlank key = key.subcategory ≢ some []

or_blank-injective :
    (s t : Option Text) → s ≢ some [] → t ≢ some [] → or_blank s ≡ or_blank t → s ≡ t
unfolding or_blank
or_blank-injective none none h k e = refl
or_blank-injective none (some t) h k e = absurd (k (ap some (sym e)))
or_blank-injective (some s) none h k e = absurd (h (ap some e))
or_blank-injective (some s) (some t) h k e = ap some e

watermark_key-injective :
    (context : UserContext) (j k : GroupKey)
    → NonBlank j
    → NonBlank k
    → watermark_key context j ≡ watermark_key context k
    → j ≡ k
watermark_key-injective context j k h i e =
    let category = ap (λ (w : WatermarkKey). w.category) e in
    let subcategory =
      or_blank-injective j.subcategory k.subcategory h i
        (ap (λ (w : WatermarkKey). w.subcategory) e) in
    cc

record_watermark-elsewhere :
    (context : UserContext) (j k : GroupKey) (at : ℕ) (marks : Watermarks)
    → watermark_key context j ≢ watermark_key context k
    → last_max_updated_at context k (record_watermark context j at marks)
      ≡ last_max_updated_at context k marks
unfolding last_max_updated_at record_watermark
record_watermark-elsewhere context j k at marks apart = ground (
  arith,
  Dict.get-insert (watermark_key context j) (watermark_key context k) at marks,
  same_watermark_iff (watermark_key context j) (watermark_key context k),
)

-- A group is recorded elsewhere than under a key.
abbrev pub Elsewhere : UserContext → GroupKey → ProcessedGroup → Type 0
Elsewhere context key group = watermark_key context group.key ≢ watermark_key context key

pub record_all-Elsewhere :
    (fault : Watermarks → GroupKey → Option RaError) (context : UserContext) (key : GroupKey)
    (groups : List ProcessedGroup) (marks : Watermarks)
    → All (Elsewhere context key) groups
    → last_max_updated_at context key (record_all fault context groups marks).1
      ≡ last_max_updated_at context key marks
unfolding record_all
record_all-Elsewhere fault context key [] marks h = refl
record_all-Elsewhere fault context key (group ∷ groups) marks h = by_fault (fault marks group.key) (
    record_all-Elsewhere fault context key groups
      (record_watermark context group.key group.max_updated_at marks) h.1)
  where
    by_fault :
        (o : Option RaError)
        → last_max_updated_at context key
            (record_all fault context groups
              (record_watermark context group.key group.max_updated_at marks)).1
          ≡ last_max_updated_at context key
              (record_watermark context group.key group.max_updated_at marks)
        → last_max_updated_at context key
            (elim o as (λ _. Result (Unit {0}) × Watermarks) [
              | some e ↦ (err e, marks)
              | none ↦
                  record_all fault context groups
                    (record_watermark context group.key group.max_updated_at marks)
            ]).1
          ≡ last_max_updated_at context key marks
    by_fault (some e) rest = refl
    by_fault none rest =
        rest ∙ record_watermark-elsewhere context group.key key group.max_updated_at marks h.0

pub without_failed-Elsewhere :
    (context : UserContext) (key : GroupKey) (failed : List GroupKey)
    (processed : List ProcessedGroup)
    → any_where (same_key key) failed ≡ true
    → NonBlank key
    → All (λ (g : ProcessedGroup). NonBlank g.key) processed
    → All (Elsewhere context key) (without_failed failed processed)
unfolding without_failed keep
without_failed-Elsewhere context key failed [] h b bs = tt
without_failed-Elsewhere context key failed (group ∷ processed) h b bs =
    elim (Bool-cases (any_where (same_key group.key) failed)) [
      | inl e ↦ rw e (without_failed-Elsewhere context key failed processed h b bs.1)
      | inr e ↦ rw e (
        (λ same. apart (watermark_key-injective context group.key key bs.0 b same) e),
        without_failed-Elsewhere context key failed processed h b bs.1,
      )
    ]
  where
    apart : group.key ≡ key → any_where (same_key group.key) failed ≡ false → ⊥
    apart same e = let differs = rw same at e in cc
