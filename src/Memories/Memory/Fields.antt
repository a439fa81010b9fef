-- ===== src/Memories/Memory/Fields.antt =====
-- Tags and subcategories as memories/domain/memory.rs stores them.
use mathlib.Core.List.{append_assoc, append-nil}
use recuerdos_ai.Prelude.{
  ◌≤◌, ◌≡◌, refl, ap, ◌∙◌, false, Option, none, some, List, [], ◌∷◌, ◌++◌, arith, All, All-append,
  Distinct, Distinct-append, contains, inl, inr, ltb, length, is_empty, Bool-cases, subst,
}
use recuerdos_ai.Text.{Text, text_eq, same_text, same_text_iff}
use recuerdos_ai.Text.Trim.{normal, normal_idem}
use recuerdos_ai.Shared.Error.{ok, ok-injective, >>=-eq-ok}
use recuerdos_ai.Memories.Memory.{
  normalize_subcategory, push_tag, collect_tags, normalize_tags, max_tags, max_tag_len,
  max_subcategory_len,
}

-- A name in the form in which it is stored.
pub record IsName (t : Text) : Type 0 where
  pub is_normal : normal t ≡ t
  pub is_full : is_empty t ≡ false
  pub is_short : length t ≤ 64

pub record AreTags (tags : List Text) : Type 0 where
  pub names : All IsName tags
  pub distinct : Distinct tags
  pub few : length tags ≤ max_tags

abbrev pub IsSubcategory : Option Text → Type 0
IsSubcategory none = Unit
IsSubcategory (some s) = IsName s

pub normalize_subcategory-IsSubcategory :
    (raw out : Option Text) → normalize_subcategory raw ≡ ok out → IsSubcategory out
unfolding normalize_subcategory
normalize_subcategory-IsSubcategory none out h = rw (← ok-injective h) tt
normalize_subcategory-IsSubcategory (some raw) out h = elim (Bool-cases (is_empty (normal raw))) [
  | inl e ↦ rw (← ok-injective (rw e at h)) tt
  | inr e ↦ elim (Bool-cases (ltb max_subcategory_len (length (normal raw)))) [
    | inl long ↦ cc (rw (e, long) at h)
    | inr short ↦
        rw (← ok-injective (rw (e, short) at h))
          (record { is_normal = normal_idem raw; is_full = e; is_short = ground arith })
  ]
]

push_tag-lem :
    (tags : List Text) (tag : Text)
    → IsName tag
    → All IsName tags
    → Distinct tags
    → All IsName (push_tag tags tag) × Distinct (push_tag tags tag)
unfolding push_tag
push_tag-lem tags tag n names distinct = elim (Bool-cases (contains tags tag)) [
  | inl e ↦ rw e (names, distinct)
  | inr e ↦
      rw e (All-append IsName tags (tag ∷ []) names (n, tt), Distinct-append tags tag e distinct)
]

collect_tags-lem :
    (tags raw out : List Text)
    → All IsName tags
    → Distinct tags
    → collect_tags tags raw ≡ ok out
    → All IsName out × Distinct out
unfolding collect_tags
collect_tags-lem tags [] out names distinct h = rw (← ok-injective h) (names, distinct)
collect_tags-lem tags (r ∷ raw) out names distinct h = elim (Bool-cases (is_empty (normal r))) [
  | inl e ↦ collect_tags-lem tags raw out names distinct (rw e at h)
  | inr e ↦ elim (Bool-cases (ltb max_tag_len (length (normal r)))) [
    | inl long ↦ cc (rw (e, long) at h)
    | inr short ↦
        let name : IsName (normal r) = record {
          is_normal = normal_idem r;
          is_full = e;
          is_short = ground arith;
        } in
        let (names', distinct') = push_tag-lem tags (normal r) name names distinct in
        collect_tags-lem (push_tag tags (normal r)) raw out names' distinct' (rw (e, short) at h)
  ]
]

-- Tags that are accepted are trimmed, in lower case, not empty and at most 64 characters long, no
-- two alike, and at most 32.
pub normalize_tags-AreTags : (raw out : List Text) → normalize_tags raw ≡ ok out → AreTags out
unfolding normalize_tags
normalize_tags-AreTags raw out h =
    let (tags, e, k) = >>=-eq-ok (collect_tags [] raw) _ h in
    let (names, distinct) = collect_tags-lem [] raw tags tt tt e in
    elim (Bool-cases (ltb max_tags (length tags))) [
      | inl many ↦ cc (rw many at k)
      | inr few ↦
          subst AreTags (ok-injective (rw few at k))
            (record { names = names; distinct = distinct; few = ground arith })
    ]

Distinct-middle :
    (acc : List Text) (t : Text) (ts : List Text)
    → Distinct (acc ++ t ∷ ts)
    → contains acc t ≡ false
unfolding contains
Distinct-middle [] t ts d = refl
Distinct-middle (a ∷ acc) t ts d = ground (
  arith,
  Distinct-middle acc t ts d.1,
  contains-middle acc t ts a,
  same_text_iff a t,
  same_text_iff t a,
)
  where
    contains-middle :
        (acc : List Text) (t : Text) (ts : List Text) (a : Text)
        → contains (acc ++ t ∷ ts) a ≡ false
        → same_text t a ≡ false
    contains-middle [] t ts a h = ground arith
    contains-middle (b ∷ acc) t ts a h = contains-middle acc t ts a (ground arith)

collect_tags_same :
    (acc ts : List Text)
    → All IsName ts
    → Distinct (acc ++ ts)
    → collect_tags acc ts ≡ ok (acc ++ ts)
unfolding collect_tags push_tag
collect_tags_same acc [] names d = rw append-nil
collect_tags_same acc (t ∷ ts) names d =
    let assoc : (acc ++ t ∷ []) ++ ts ≡ acc ++ t ∷ ts = append_assoc acc (t ∷ []) ts in
    let short : ltb max_tag_len (length t) ≡ false = ground (arith, names.0.is_short) in
    rw (names.0.is_normal, names.0.is_full, short, Distinct-middle acc t ts d)
      (collect_tags_same (acc ++ t ∷ []) ts names.1 (rw assoc d) ∙ ap ok assoc)

-- Tags that were accepted once are accepted again and not changed.
pub normalize_tags_idem :
    (raw out : List Text) → normalize_tags raw ≡ ok out → normalize_tags out ≡ ok out
normalize_tags_idem raw out h =
    let tags = normalize_tags-AreTags raw out h in
    let few : ltb max_tags (length out) ≡ false = ground (arith, tags.few) in
    unfold normalize_tags in rw (collect_tags_same [] out tags.names tags.distinct, few) refl
