-- ===== src/Oracle/Accepts/Json.antt =====
-- `JsonOracle` and `GzipOracle`: exactly which heads pass.
use memhunt.Base.{ℕ, ◌≤◌, ◌<◌, ◌≡◌, refl, ◌↔◌, ◌⊎◌, inl, inr, arith, Bytes, Text}
use memhunt.Base.{true, false, Option, none, some, [], ◌∷◌, ◌++◌, All, all}
use memhunt.Base.{from_utf8, start, Bool-cases, sym, &&→both, true≢false, subst, bit_and_top_three}
use memhunt.Base.Utf8.RoundTrip.{decode_cut}
use memhunt.Oracle.Plain.{
  is_printable, starts_value, structurally_valid, all_printable, verify_json,
}
use memhunt.Oracle.Binary.{verify_gzip}

-- A character that is no control character, or one of tab, line feed and carriage return.
abbrev pub IsPrintable : ℕ → Type 0
IsPrintable c = (0x20 ≤ c) × (c < 0x7f) ⊎ (0xa0 ≤ c) ⊎ (c ≡ 0x09) ⊎ (c ≡ 0x0a) ⊎ (c ≡ 0x0d)

-- A digit, a quote, an opening bracket, a blank or a tab.
abbrev pub StartsValue : ℕ → Type 0
StartsValue c =
    (b'0' ≤ c) × (c ≤ b'9') ⊎ (c ≡ b'"') ⊎ (c ≡ b'[') ⊎ (c ≡ b'{') ⊎ (c ≡ b' ') ⊎ (c ≡ 0x09)

-- The two bytes that open an object or an array.
abbrev pub OpensJson : ℕ → ℕ → Type 0
OpensJson b c = (b ≡ b'{') × (c ≡ b'"') ⊎ (b ≡ b'[') × StartsValue c

pub record IsJsonHead (head : Bytes) : Type 0 where
  pub first : ℕ
  pub second : ℕ
  pub rest : Bytes
  pub text : Text
  pub begins : head ≡ first ∷ second ∷ rest
  pub opens : OpensJson first second
  pub decodes : from_utf8 head ≡ some text
  pub printable : All IsPrintable text

is_printable→ : (c : ℕ) → is_printable c ≡ true → IsPrintable c
unfolding is_printable
is_printable→ c h = ground arith

is_printable← : (c : ℕ) → IsPrintable c → is_printable c ≡ true
unfolding is_printable
is_printable← c h = ground arith

all→All : (s : Text) → all is_printable s ≡ true → All IsPrintable s
all→All [] h = tt
all→All (c ∷ s) h = let (hc, hs) = &&→both _ _ h in (is_printable→ c hc, all→All s hs)

All→all : (s : Text) → All IsPrintable s → all is_printable s ≡ true
All→all [] h = refl
All→all (c ∷ s) (hc, hs) = rw (is_printable← c hc) (All→all s hs)

starts_value→ : (c : ℕ) → starts_value c ≡ true → StartsValue c
unfolding starts_value
starts_value→ c h = ground arith

starts_value← : (c : ℕ) → StartsValue c → starts_value c ≡ true
unfolding starts_value
starts_value← c h = ground arith

opens→ : (b c : ℕ) (rest : Bytes) → structurally_valid (b ∷ c ∷ rest) ≡ true → OpensJson b c
unfolding structurally_valid
opens→ b c rest h = ground (arith, starts_value→ c)

opens← : (b c : ℕ) (rest : Bytes) → OpensJson b c → structurally_valid (b ∷ c ∷ rest) ≡ true
unfolding structurally_valid
opens← b c rest h = ground (arith, starts_value← c)

json_parts :
    (head : Bytes)
    → verify_json head ≡ true
    → (structurally_valid head ≡ true) × (all_printable (from_utf8 head) ≡ true)
unfolding verify_json
json_parts head h = elim (Bool-cases (structurally_valid head)) [
  | inl valid ↦ (valid, rw valid at h)
  | inr invalid ↦ absurd (true≢false (sym (rw invalid at h)))
]

decoded_parts :
    (o : Option Text) → all_printable o ≡ true → (s : Text) × (o ≡ some s) × All IsPrintable s
unfolding all_printable
decoded_parts none h = absurd (true≢false (sym h))
decoded_parts (some s) h = (s, refl, all→All s h)

json_sound : (head : Bytes) → verify_json head ≡ true → IsJsonHead head
unfolding structurally_valid
json_sound [] h = absurd (true≢false (sym (json_parts [] h).0))
json_sound (b ∷ []) h = absurd (true≢false (sym (json_parts (b ∷ []) h).0))
json_sound (b ∷ c ∷ rest) h =
    let (valid, printable) = json_parts (b ∷ c ∷ rest) h in
    let (s, decodes, all_ok) = decoded_parts (from_utf8 (b ∷ c ∷ rest)) printable in
    record {
      first = b;
      second = c;
      rest = rest;
      text = s;
      begins = refl;
      opens = opens→ b c rest valid;
      decodes = decodes;
      printable = all_ok;
    }

json_complete : (head : Bytes) → IsJsonHead head → verify_json head ≡ true
unfolding verify_json all_printable
json_complete head h =
    let valid : structurally_valid head ≡ true =
      rw h.begins (opens← h.first h.second h.rest h.opens) in
    rw (valid, h.decodes) (All→all h.text h.printable)

-- `JsonOracle` accepts exactly the heads that open an object by `{"` or an array by `[` and the
-- start of a value, decode as UTF-8 to the last byte, and hold printable characters only.
pub verify_json_iff : (head : Bytes) → (verify_json head ≡ true) ↔ IsJsonHead head
verify_json_iff head = (json_sound head, json_complete head)

-- A head that stops behind the first byte of a longer character is refused, whatever it holds.
pub verify_json_cut :
    (front : Bytes) (lead : ℕ) → 0xc2 ≤ lead → verify_json (front ++ lead ∷ []) ≡ false
unfolding verify_json from_utf8
verify_json_cut front lead h = rw (decode_cut start front lead h (omega arith)) (ground arith)

pub record IsGzipHead (head : Bytes) : Type 0 where
  pub flags : ℕ
  pub rest : Bytes
  pub begins : head ≡ 0x1f ∷ 0x8b ∷ 0x08 ∷ flags ∷ rest
  pub reserved_clear : flags < 32

gzip_sound : (head : Bytes) → All (λ b. b < 256) head → verify_gzip head ≡ true → IsGzipHead head
unfolding verify_gzip
gzip_sound [] bytes h = absurd (true≢false (sym h))
gzip_sound (a ∷ []) bytes h = absurd (true≢false (sym h))
gzip_sound (a ∷ b ∷ []) bytes h = absurd (true≢false (sym h))
gzip_sound (a ∷ b ∷ c ∷ []) bytes h = absurd (true≢false (sym h))
gzip_sound (a ∷ b ∷ c ∷ flg ∷ rest) (ha, (hb, (hc, (hf, hr)))) h = record {
  flags = flg;
  rest = rest;
  begins = ground arith;
  reserved_clear = ground (arith, bit_and_top_three flg);
}

gzip_complete : (head : Bytes) → All (λ b. b < 256) head → IsGzipHead head → verify_gzip head ≡ true
unfolding verify_gzip
gzip_complete head bytes h =
    let bytes' = subst (All (λ b. b < 256)) h.begins bytes in
    rw h.begins (ground (arith, bit_and_top_three h.flags))

-- `GzipOracle` accepts exactly the heads of four bytes or more that begin with 1f 8b 08 and a flag
-- byte whose three reserved bits are clear.
pub verify_gzip_iff :
    (head : Bytes) → All (λ b. b < 256) head → (verify_gzip head ≡ true) ↔ IsGzipHead head
verify_gzip_iff head bytes = (gzip_sound head bytes, gzip_complete head bytes)
