-- ===== src/Text/Trim.antt =====
-- Trimming and lower-casing: what is trimmed stays trimmed, and a second pass changes nothing.
use recuerdos_ai.Prelude.{
  ℕ, ◌≡◌, refl, ap, Bool, false, ◌&&◌, [], ◌∷◌, arith, is_empty, Bool-cases, inl, inr, length, ◌≤◌,
}
use recuerdos_ai.Text.{
  Text, is_whitespace, trim_start, trim_end, trim, ascii_lower, to_ascii_lowercase,
}

trim_start_idem : (s : Text) → trim_start (trim_start s) ≡ trim_start s
unfolding trim_start
trim_start_idem [] = refl
trim_start_idem (c ∷ s) = elim (Bool-cases (is_whitespace c)) [
  | inl e ↦ rw e (trim_start_idem s)
  | inr e ↦ rw (e, e) refl
]

trim_end_idem : (s : Text) → trim_end (trim_end s) ≡ trim_end s
unfolding trim_end
trim_end_idem [] = refl
trim_end_idem (c ∷ s) = elim (Bool-cases (is_empty (trim_end s) && is_whitespace c)) [
  | inl e ↦ rw e refl
  | inr e ↦ rw e (rw (trim_end_idem s) (rw e refl))
]

length-trim_start : (s : Text) → length (trim_start s) ≤ length s
unfolding trim_start
length-trim_start [] = omega arith
length-trim_start (c ∷ s) = elim (Bool-cases (is_whitespace c)) [
  | inl e ↦ rw e (omega (arith, length-trim_start s))
  | inr e ↦ rw e (omega arith)
]

shorter : (c : ℕ) (s t : Text) → length t ≤ length s → t ≡ c ∷ s → ⊥
shorter c s t h e = omega (arith, ap length e)

and_false : (b : Bool) → (b && false) ≡ false
and_false b = ground arith

-- A text that begins with no white space still does not when its end is trimmed.
trim_start-trim_end : (s : Text) → trim_start s ≡ s → trim_start (trim_end s) ≡ trim_end s
unfolding trim_start trim_end
trim_start-trim_end [] h = refl
trim_start-trim_end (c ∷ s) h = elim (Bool-cases (is_whitespace c)) [
  | inl e ↦ absurd (shorter c s (trim_start s) (length-trim_start s) (rw e at h))
  | inr e ↦ rw (e, and_false (is_empty (trim_end s)), e) refl
]

pub trim_idem : (s : Text) → trim (trim s) ≡ trim s
unfolding trim
trim_idem s =
    rw (trim_start-trim_end (trim_start s) (trim_start_idem s)) (trim_end_idem (trim_start s))

space-ascii_lower : (c : ℕ) → is_whitespace (ascii_lower c) ≡ is_whitespace c
unfolding is_whitespace ascii_lower
space-ascii_lower c = ground arith

ascii_lower_idem : (c : ℕ) → ascii_lower (ascii_lower c) ≡ ascii_lower c
unfolding ascii_lower
ascii_lower_idem c = ground arith

pub to_ascii_lowercase_idem :
    (s : Text) → to_ascii_lowercase (to_ascii_lowercase s) ≡ to_ascii_lowercase s
unfolding to_ascii_lowercase
to_ascii_lowercase_idem [] = refl
to_ascii_lowercase_idem (c ∷ s) = cc (ascii_lower_idem c, to_ascii_lowercase_idem s)

lower-trim_start :
    (s : Text) → trim_start (to_ascii_lowercase s) ≡ to_ascii_lowercase (trim_start s)
unfolding trim_start to_ascii_lowercase
lower-trim_start [] = refl
lower-trim_start (c ∷ s) = elim (Bool-cases (is_whitespace c)) [
  | inl e ↦ rw (space-ascii_lower c, e) (lower-trim_start s)
  | inr e ↦ rw (space-ascii_lower c, e) refl
]

lower-is_empty : (s : Text) → is_empty (to_ascii_lowercase s) ≡ is_empty s
unfolding to_ascii_lowercase
lower-is_empty [] = refl
lower-is_empty (c ∷ s) = refl

lower-trim_end : (s : Text) → trim_end (to_ascii_lowercase s) ≡ to_ascii_lowercase (trim_end s)
unfolding trim_end to_ascii_lowercase
lower-trim_end [] = refl
lower-trim_end (c ∷ s) = rw (lower-trim_end s) (
    rw (lower-is_empty (trim_end s), space-ascii_lower c)
      (elim (Bool-cases (is_empty (trim_end s) && is_whitespace c)) [
        | inl e ↦ rw e refl
        | inr e ↦ rw e refl
      ]))

-- What is stored of a name: trimmed, in lower case.
abbrev pub normal : Text → Text
normal s = to_ascii_lowercase (trim s)

pub normal_idem : (s : Text) → normal (normal s) ≡ normal s
normal_idem s = rw (trim-lower (trim s), trim_idem s, to_ascii_lowercase_idem (trim s)) refl
  where
    trim-lower : (t : Text) → trim (to_ascii_lowercase t) ≡ to_ascii_lowercase (trim t)
    trim-lower t = unfold trim in rw (lower-trim_start t) (lower-trim_end (trim_start t))
