-- ===== src/Identity/ApiKey/Token.antt =====
-- A token that is rendered parses back, and what parses is in the form that is rendered.
use recuerdos_ai.Prelude.{
  ℕ, zero, suc, ◌+◌, ◌-◌, ◌≤◌, ◌≡◌, refl, ap, Bool, true, not, ◌&&◌, ◌||◌, [], ◌∷◌, ◌++◌, arith,
  leb, ◌==◌, length, take, drop, length-append, some, &&-true, ◌∙◌, ==_iff,
}
use recuerdos_ai.Text.{
  Text, trim, trim_start, trim_end, strip_prefix, strip_prefix-append, byte_len, utf8_len,
  all_chars, is_ascii_hexdigit, to_ascii_lowercase, ascii_lower, length-to_ascii_lowercase,
  is_whitespace,
}
use recuerdos_ai.Shared.Error.{ok, guard, ok_or, >>=-eq-ok, ok-injective, guard-eq-ok}
use recuerdos_ai.Identity.ApiKey.{
  ApiKeyToken, parse, render, key_scheme, prefix_hex_len, secret_hex_len, unauthorized,
}

-- A digit of a token as it is generated: `0` to `9` and `a` to `f`.
unfoldable pub is_lower_hex : ℕ → Bool
is_lower_hex c = (leb b'0' c && leb c b'9') || (leb b'a' c && leb c b'f')

pub record IsWellFormed (t : ApiKeyToken) : Type 0 where
  pub prefix_length : length t.prefix ≡ prefix_hex_len
  pub secret_length : length t.secret ≡ secret_hex_len
  pub prefix_digits : all_chars is_lower_hex t.prefix ≡ true
  pub secret_digits : all_chars is_lower_hex t.secret ≡ true

is_visible : ℕ → Bool
is_visible c = not (is_whitespace c)

all_chars-append :
    (p : ℕ → Bool) (s t : Text)
    → all_chars p s ≡ true
    → all_chars p t ≡ true
    → all_chars p (s ++ t) ≡ true
unfolding all_chars
all_chars-append p [] t h k = k
all_chars-append p (c ∷ s) t h k =
    let (here, there) = &&-true (p c) (all_chars p s) h in
    rw (here, all_chars-append p s t there k) refl

all_chars-take :
    (p : ℕ → Bool) (n : ℕ) (s : Text) → all_chars p s ≡ true → all_chars p (take n s) ≡ true
unfolding all_chars
all_chars-take p zero s h = refl
all_chars-take p (suc n) [] h = refl
all_chars-take p (suc n) (c ∷ s) h =
    let (here, there) = &&-true (p c) (all_chars p s) h in
    rw (here, all_chars-take p n s there) refl

all_chars-drop :
    (p : ℕ → Bool) (n : ℕ) (s : Text) → all_chars p s ≡ true → all_chars p (drop n s) ≡ true
unfolding all_chars
all_chars-drop p zero s h = h
all_chars-drop p (suc n) [] h = refl
all_chars-drop p (suc n) (c ∷ s) h = all_chars-drop p n s (&&-true (p c) (all_chars p s) h).1

all_chars_mono :
    (p q : ℕ → Bool) (s : Text)
    → ((c : ℕ) → p c ≡ true → q c ≡ true)
    → all_chars p s ≡ true
    → all_chars q s ≡ true
unfolding all_chars
all_chars_mono p q [] k h = refl
all_chars_mono p q (c ∷ s) k h =
    let (here, there) = &&-true (p c) (all_chars p s) h in
    rw (k c here, all_chars_mono p q s k there) refl

lower_hex-hex : (c : ℕ) → is_lower_hex c ≡ true → is_ascii_hexdigit c ≡ true
unfolding is_lower_hex is_ascii_hexdigit
lower_hex-hex c h = ground arith

lower_hex-lower : (c : ℕ) → is_lower_hex c ≡ true → ascii_lower c ≡ c
unfolding is_lower_hex ascii_lower
lower_hex-lower c h = ground arith

hex-lower_hex : (c : ℕ) → is_ascii_hexdigit c ≡ true → is_lower_hex (ascii_lower c) ≡ true
unfolding is_lower_hex ascii_lower is_ascii_hexdigit
hex-lower_hex c h = ground arith

hex-utf8_len : (c : ℕ) → is_ascii_hexdigit c ≡ true → utf8_len c ≡ 1
unfolding is_ascii_hexdigit utf8_len
hex-utf8_len c h = ground arith

lower_hex-visible : (c : ℕ) → is_lower_hex c ≡ true → is_visible c ≡ true
unfolding is_lower_hex is_visible is_whitespace
lower_hex-visible c h = ground arith

-- Hexadecimal digits take one byte each.
hex-byte_len : (s : Text) → all_chars is_ascii_hexdigit s ≡ true → byte_len s ≡ length s
unfolding all_chars byte_len
hex-byte_len [] h = refl
hex-byte_len (c ∷ s) h =
    let (here, there) = &&-true (is_ascii_hexdigit c) (all_chars is_ascii_hexdigit s) h in
    omega (arith, hex-utf8_len c here, hex-byte_len s there)

lower_hex-to_ascii_lowercase :
    (s : Text) → all_chars is_lower_hex s ≡ true → to_ascii_lowercase s ≡ s
unfolding all_chars to_ascii_lowercase
lower_hex-to_ascii_lowercase [] h = refl
lower_hex-to_ascii_lowercase (c ∷ s) h =
    let (here, there) = &&-true (is_lower_hex c) (all_chars is_lower_hex s) h in
    cc (lower_hex-lower c here, lower_hex-to_ascii_lowercase s there)

to_ascii_lowercase-lower_hex :
    (s : Text)
    → all_chars is_ascii_hexdigit s ≡ true
    → all_chars is_lower_hex (to_ascii_lowercase s) ≡ true
unfolding all_chars to_ascii_lowercase
to_ascii_lowercase-lower_hex [] h = refl
to_ascii_lowercase-lower_hex (c ∷ s) h =
    let (here, there) = &&-true (is_ascii_hexdigit c) (all_chars is_ascii_hexdigit s) h in
    rw (hex-lower_hex c here, to_ascii_lowercase-lower_hex s there) refl

visible-trim_start : (s : Text) → all_chars is_visible s ≡ true → trim_start s ≡ s
unfolding all_chars trim_start is_visible
visible-trim_start [] h = refl
visible-trim_start (c ∷ s) h = ground arith

visible-trim_end : (s : Text) → all_chars is_visible s ≡ true → trim_end s ≡ s
unfolding all_chars trim_end is_visible
visible-trim_end [] h = refl
visible-trim_end (c ∷ s) h =
    let (here, there) = &&-true (is_visible c) (all_chars is_visible s) h in
    rw (visible-trim_end s there) (ground arith)

visible-trim : (s : Text) → all_chars is_visible s ≡ true → trim s ≡ s
unfolding trim
visible-trim s h = rw (visible-trim_start s h) (visible-trim_end s h)

take-append : (n : ℕ) (s t : Text) → length s ≡ n → take n (s ++ t) ≡ s
take-append zero [] t e = refl
take-append zero (c ∷ s) t e = absurd (omega arith)
take-append (suc n) [] t e = absurd (omega arith)
take-append (suc n) (c ∷ s) t e = ap (λ r. c ∷ r) (take-append n s t (omega arith))

drop-append : (n : ℕ) (s t : Text) → length s ≡ n → drop n (s ++ t) ≡ t
drop-append zero [] t e = refl
drop-append zero (c ∷ s) t e = absurd (omega arith)
drop-append (suc n) [] t e = absurd (omega arith)
drop-append (suc n) (c ∷ s) t e = drop-append n s t (omega arith)

length-take_exact : (n : ℕ) (s : Text) → n ≤ length s → length (take n s) ≡ n
length-take_exact zero s h = refl
length-take_exact (suc n) [] h = absurd (omega arith)
length-take_exact (suc n) (c ∷ s) h = ap suc (length-take_exact n s (omega arith))

length-drop : (n : ℕ) (s : Text) → length (drop n s) ≡ length s - n
length-drop zero s = omega arith
length-drop (suc n) [] = omega arith
length-drop (suc n) (c ∷ s) = omega (arith, length-drop n s)

render-visible : (t : ApiKeyToken) → IsWellFormed t → all_chars is_visible (render t) ≡ true
unfolding render
render-visible t w =
    all_chars-append is_visible key_scheme _ (unfold all_chars is_visible is_whitespace in refl) (
      all_chars-append is_visible t.prefix t.secret
        (all_chars_mono _ _ t.prefix lower_hex-visible w.prefix_digits)
        (all_chars_mono _ _ t.secret lower_hex-visible w.secret_digits))

-- A token of eight and thirty-two lower-case hexadecimal digits, rendered, parses to itself.
pub parse-render : (t : ApiKeyToken) → IsWellFormed t → parse (render t) ≡ ok t
unfolding parse
parse-render t w =
    let body = t.prefix ++ t.secret in
    let lower : all_chars is_lower_hex body ≡ true =
      all_chars-append is_lower_hex t.prefix t.secret w.prefix_digits w.secret_digits in
    let digits : all_chars is_ascii_hexdigit body ≡ true =
      all_chars_mono _ _ body lower_hex-hex lower in
    let bytes : byte_len body ≡ 40 = omega (
      arith,
      hex-byte_len body digits,
      length-append t.prefix t.secret,
      w.prefix_length,
      w.secret_length,
    ) in
    let stripped : strip_prefix key_scheme (trim (render t)) ≡ some body =
      rw (visible-trim (render t) (render-visible t w))
        (unfold render in strip_prefix-append key_scheme body) in
    rw (stripped, bytes, digits)
      (rw
        (
          take-append 8 t.prefix t.secret w.prefix_length,
          drop-append 8 t.prefix t.secret w.prefix_length,
          lower_hex-to_ascii_lowercase t.prefix w.prefix_digits,
          lower_hex-to_ascii_lowercase t.secret w.secret_digits,
        )
        refl)

split-IsWellFormed :
    (body : Text)
    → byte_len body ≡ 40
    → all_chars is_ascii_hexdigit body ≡ true
    → IsWellFormed (record {
      prefix = to_ascii_lowercase (take 8 body);
      secret = to_ascii_lowercase (drop 8 body);
    })
split-IsWellFormed body bytes digits = record {
  prefix_length =
      length-to_ascii_lowercase (take 8 body)
      ∙ length-take_exact 8 body (omega (arith, hex-byte_len body digits));
  secret_length = omega (
    arith,
    length-to_ascii_lowercase (drop 8 body),
    length-drop 8 body,
    hex-byte_len body digits,
  );
  prefix_digits = to_ascii_lowercase-lower_hex (take 8 body) (all_chars-take _ 8 body digits);
  secret_digits = to_ascii_lowercase-lower_hex (drop 8 body) (all_chars-drop _ 8 body digits);
}

-- What parses is such a token, however the caller wrote it.
pub parse-IsWellFormed : (raw : Text) (t : ApiKeyToken) → parse raw ≡ ok t → IsWellFormed t
unfolding parse
parse-IsWellFormed raw t h =
    let (body, _, h₁) = >>=-eq-ok (ok_or (strip_prefix key_scheme (trim raw)) unauthorized) _ h in
    let (_, g₁, h₂) =
      >>=-eq-ok (guard (byte_len body == prefix_hex_len + secret_hex_len) unauthorized) _ h₁ in
    let (_, g₂, h₃) = >>=-eq-ok (guard (all_chars is_ascii_hexdigit body) unauthorized) _ h₂ in
    rw (← ok-injective h₃)
      (split-IsWellFormed body ((==_iff _ _).0 (guard-eq-ok _ _ g₁)) (guard-eq-ok _ _ g₂))
