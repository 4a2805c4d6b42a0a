-- ===== src/Oracle/Accepts/Utf8.antt =====
-- `Utf8Oracle` and `Utf16LeOracle` look through zero padding.
use memhunt.Base.{ℕ, zero, suc, ◌+◌, ◌≤◌, ◌<◌, ◌≡◌, refl, sym, ap, ◌∙◌, arith, Bytes, Bool, false}
use memhunt.Base.{[], ◌∷◌, ◌++◌, length, get_or, replicate, length-append}
use memhunt.Base.{
  length-replicate, take-append_left, take_all, leb, leb→le, inl, inr, if◌then◌else◌, is_empty,
  start, from_utf8, Bool-cases,
}
use memhunt.Base.Utf8.RoundTrip.{decode_cut}
use memhunt.Oracle.Plain.{trimmed_end, strip_trailing_zeros, verify_utf8}

trimmed_end-le : (bytes : Bytes) (n : ℕ) → trimmed_end bytes n ≤ n
unfolding trimmed_end
trimmed_end-le bytes zero = omega arith
trimmed_end-le bytes (suc e) = ground (arith, trimmed_end-le bytes e)

get_or-append_left :
    (xs ys : Bytes) (i d : ℕ) → i < length xs → get_or (xs ++ ys) i d ≡ get_or xs i d
get_or-append_left [] ys i d h = elim h [ ]
get_or-append_left (x ∷ xs) ys zero d h = refl
get_or-append_left (x ∷ xs) ys (suc i) d h = get_or-append_left xs ys i d (omega arith)

get_or-append_zeros : (xs : Bytes) (k i : ℕ) → length xs ≤ i → get_or (xs ++ replicate k 0) i 0 ≡ 0
get_or-append_zeros [] zero i h = refl
get_or-append_zeros [] (suc k) zero h = refl
get_or-append_zeros [] (suc k) (suc i) h = get_or-append_zeros [] k i (omega arith)
get_or-append_zeros (x ∷ xs) k zero h = elim h [ ]
get_or-append_zeros (x ∷ xs) k (suc i) h = get_or-append_zeros xs k i (omega arith)

-- The loop does not look past its index, and passes over the zeros behind the text.
trimmed_end-append :
    (xs : Bytes) (k n : ℕ) → n ≤ length xs → trimmed_end (xs ++ replicate k 0) n ≡ trimmed_end xs n
unfolding trimmed_end
trimmed_end-append xs k zero h = refl
trimmed_end-append xs k (suc e) h =
    rw (get_or-append_left xs (replicate k 0) e 0 h, trimmed_end-append xs k e (omega arith))

trimmed_end-zeros :
    (xs : Bytes) (k n : ℕ)
    → length xs ≤ n
    → trimmed_end (xs ++ replicate k 0) n ≡ trimmed_end xs (length xs)
unfolding trimmed_end
trimmed_end-zeros [] k zero h = refl
trimmed_end-zeros (x ∷ xs) k zero h = elim h [ ]
trimmed_end-zeros xs k (suc e) h = elim (Bool-cases (leb (length xs) e)) [
  | inl past ↦
      rw (get_or-append_zeros xs k e (leb→le _ _ past)) (trimmed_end-zeros xs k e (leb→le _ _ past))
  | inr last ↦
      let whole : length xs ≡ suc e = ground arith in
      trimmed_end-append xs k (suc e) (omega arith) ∙ ap (trimmed_end xs) (sym whole)
]

strip_padding :
    (xs : Bytes) (k : ℕ) → strip_trailing_zeros (xs ++ replicate k 0) ≡ strip_trailing_zeros xs
unfolding strip_trailing_zeros
strip_padding xs k =
    let total : length (xs ++ replicate k 0) ≡ length xs + k =
      omega (arith, length-append xs (replicate k 0), length-replicate k (zero)) in
    rw (trimmed_end-zeros xs k (length (xs ++ replicate k 0)) (omega arith))
      (take-append_left _ xs (replicate k 0) (trimmed_end-le xs (length xs)))

-- `Utf8Oracle` gives the same answer with any number of zero bytes behind the text.
pub verify_utf8_padding :
    (head : Bytes) (k : ℕ) → verify_utf8 (head ++ replicate k 0) ≡ verify_utf8 head
verify_utf8_padding head k = unfold verify_utf8 in rw (strip_padding head k)

get_or-last : (xs : Bytes) (l : ℕ) → get_or (xs ++ l ∷ []) (length xs) 0 ≡ l
get_or-last [] l = refl
get_or-last (x ∷ xs) l = get_or-last xs l

strip_keeps_last : (xs : Bytes) (l : ℕ) → 0 < l → strip_trailing_zeros (xs ++ l ∷ []) ≡ xs ++ l ∷ []
unfolding strip_trailing_zeros
strip_keeps_last xs l h =
    let total : length (xs ++ l ∷ []) ≡ suc (length xs) =
      omega (arith, length-append xs (l ∷ [])) in
    rw total (ground (arith, get_or-last xs l, take_all (suc (length xs)) (xs ++ l ∷ []), total))

-- A head that stops behind the first byte of a longer character is refused, whatever it holds.
pub verify_utf8_cut :
    (front : Bytes) (lead : ℕ) → 0xc2 ≤ lead → verify_utf8 (front ++ lead ∷ []) ≡ false
unfolding verify_utf8 from_utf8
verify_utf8_cut front lead h =
    rw (strip_keeps_last front lead (omega arith), decode_cut start front lead h (omega arith))
      (same_branches (is_empty (front ++ lead ∷ [])))
  where
    same_branches : (b : Bool) → (if b then false else false) ≡ false
    same_branches b = ground arith
