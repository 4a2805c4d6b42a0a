-- ===== src/Base/Windows.antt =====
-- `slice::windows`, `enumerate`, and the parallel sweep over a dump that every scan makes.
-- rayon's indexed iterators collect in order, so a sweep is a pass from the first window on; the
-- relaxed counter `tried` gains one for each window, whichever thread takes it.
use Prim.Native.Nat.{ℕ, zero, suc, ◌+◌, ◌-◌, ◌%◌, ◌^◌, ◌≤◌, ◌<◌}
use mathlib.Core.Path.{◌≡◌, refl, ap, sym, ◌∙◌, subst}
use mathlib.Core.Logic.{inl, inr}
use mathlib.Core.Bool.{Bool, true, false}
use mathlib.Core.List.{List, [], ◌∷◌}
use mathlib.Core.List.Memᴰ
use mathlib.Core.List.{Memᴰ}
use mathlib.Core.Option.{Option, none, some}
use native.Mathlib.Omega.{arith}
use memhunt.Base.Tests.{if◌then◌else◌, leb, leb→le, le→leb, Bool-cases, Option-cases}
use memhunt.Base.Lists.{length, take, drop}

module _ {ℓ} {A : Type ℓ} where
  -- Every run of `n` neighbours, in order. (`windows(0)` panics: the callers see to that.)
  unfoldable pub windows : ℕ → List A → List (List A)
  windows n [] = []
  windows n (x ∷ xs) = if leb n (suc (length xs)) then take n (x ∷ xs) ∷ windows n xs else []

  unfoldable pub enumerate_from : ℕ → List A → List (ℕ × A)
  enumerate_from i [] = []
  enumerate_from i (x ∷ xs) = (i, x) ∷ enumerate_from (i + 1) xs

-- `tried.fetch_add(1, Relaxed)` on an `AtomicU64`.
abbrev pub count_one : ℕ → ℕ
count_one tried = (tried + 1) % 2 ^ 64

module _ {ℓ κ} {A : Type ℓ} {H : Type κ} where
  -- `.filter(|_| !stop.load()).filter_map(|(offset, window)| { tried += 1; test })`, with the
  -- hits and the counter after it.
  unfoldable pub sweep : Bool → (ℕ → A → Option H) → List (ℕ × A) → ℕ → ℕ × List H
  sweep stop test [] tried = (tried, [])
  sweep stop test ((i, w) ∷ rest) tried =
      let visited = sweep stop test rest (if stop then tried else count_one tried) in
      if stop
      then visited
      else elim (test i w) [ none ↦ visited | some hit ↦ (visited.0, hit ∷ visited.1) ]

-- A window of `n` elements stands at position `i` of the list.
pub record IsWindow {ℓ} {A : Type ℓ} (n : ℕ) (xs : List A) (i : ℕ) (w : List A) : Type ℓ where
  pub inside : i + n ≤ length xs
  pub reads : w ≡ take n (drop i xs)

module _ {ℓ} {A : Type ℓ} (n : ℕ) where
  -- The pairs that a scan visits.
  abbrev pub positions : List A → List (ℕ × List A)
  positions xs = enumerate_from 0 (windows n xs)

  windows_short : (xs : List A) → length xs < n → windows n xs ≡ []
  unfolding windows
  windows_short [] h = refl
  windows_short (x ∷ xs) h = ground arith

  windows_nil : windows {A = A} n [] ≡ []
  unfolding windows
  windows_nil = refl

  windows_cons :
      (x : A) (xs : List A)
      → n ≤ length (x ∷ xs)
      → windows n (x ∷ xs) ≡ take n (x ∷ xs) ∷ windows n xs
  unfolding windows
  windows_cons x xs h = rw (le→leb n (length (x ∷ xs)) h)

  pub length-windows : (xs : List A) → 0 < n → length (windows n xs) ≡ length xs + 1 - n
  unfolding windows
  length-windows [] h = omega arith
  length-windows (x ∷ xs) h = ground (arith, length-windows xs h)

  -- A scan visits every window, with its offset.
  pub window_visited :
      (xs : List A) (base i : ℕ) (w : List A)
      → 0 < n
      → IsWindow n xs i w
      → Memᴰ (base + i, w) (enumerate_from base (windows n xs))
  unfolding enumerate_from
  window_visited [] base i w pos at = absurd (omega (arith, at.inside))
  window_visited (x ∷ xs) base zero w pos at =
      rw (windows_cons x xs (omega (arith, at.inside))) (Memᴰ.head λ k. (zero_offset k, at.reads k))
    where
      zero_offset : base + 0 ≡ base
      zero_offset = omega arith
  window_visited (x ∷ xs) base (suc i) w pos at =
      rw (windows_cons x xs (omega (arith, at.inside)), next_offset)
        (Memᴰ.tail (
          window_visited xs (base + 1) i w pos
            (record { inside = omega (arith, at.inside); reads = at.reads })))
    where
      next_offset : base + suc i ≡ base + 1 + i
      next_offset = omega arith

  -- A scan visits nothing else.
  pub visited-IsWindow :
      (xs : List A) (base j : ℕ) (w : List A)
      → Memᴰ (j, w) (enumerate_from base (windows n xs))
      → (i : ℕ) × (j ≡ base + i) × IsWindow n xs i w
  unfolding enumerate_from
  visited-IsWindow [] base j w m = absurd (Memᴰ.not-nil (rw windows_nil at m))
  visited-IsWindow (x ∷ xs) base j w m = elim (Bool-cases (leb n (suc (length xs)))) [
    | inr short ↦ absurd (Memᴰ.not-nil (rw (windows_short (x ∷ xs) (ground arith)) at m))
    | inl fits ↦
        let fits' : n ≤ length (x ∷ xs) = leb→le n _ fits in
        elim (Memᴰ.cases_cons (rw (windows_cons x xs fits') at m)) [
          | inl e ↦ (
            0,
            omega (arith, ap (λ (p : ℕ × List A). p.0) e),
            record { inside = omega arith; reads = ap (λ (p : ℕ × List A). p.1) e },
          )
          | inr later ↦
              let (i, at, win) = visited-IsWindow xs (base + 1) j w later in
              (suc i, omega arith, record { inside = omega (arith, win.inside); reads = win.reads })
        ]
  ]

length-enumerate_from {ℓ} :
    {A : Type ℓ} (i : ℕ) (xs : List A) → length (enumerate_from i xs) ≡ length xs
unfolding enumerate_from
length-enumerate_from i [] = refl
length-enumerate_from i (x ∷ xs) = ap suc (length-enumerate_from (i + 1) xs)

module _ {ℓ κ} {A : Type ℓ} {H : Type κ} (test : ℕ → A → Option H) where
  -- Every hit of a sweep comes from a window that passes the test.
  pub swept_from :
      (ps : List (ℕ × A)) (tried : ℕ) (hit : H)
      → Memᴰ hit (sweep false test ps tried).1
      → (i : ℕ) × (w : A) × Memᴰ (i, w) ps × (test i w ≡ some hit)
  unfolding sweep
  swept_from [] tried hit m = absurd (Memᴰ.not-nil m)
  swept_from ((i, w) ∷ ps) tried hit m = elim (Option-cases (test i w)) [
    | inl fails ↦
        let (j, v, at, e) = swept_from ps (count_one tried) hit (rw fails at m) in
        (j, v, Memᴰ.tail at, e)
    | inr (found, e) ↦ elim (Memᴰ.cases_cons (rw e at m)) [
      | inl same ↦ (i, w, Memᴰ.head refl, e ∙ ap some (sym same))
      | inr rest ↦
          let (j, v, at, e') = swept_from ps (count_one tried) hit rest in (j, v, Memᴰ.tail at, e')
    ]
  ]

  -- A window that passes the test is a hit.
  pub sweep_finds :
      (ps : List (ℕ × A)) (tried i : ℕ) (w : A) (hit : H)
      → Memᴰ (i, w) ps
      → test i w ≡ some hit
      → Memᴰ hit (sweep false test ps tried).1
  unfolding sweep
  sweep_finds [] tried i w hit m e = absurd (Memᴰ.not-nil m)
  sweep_finds ((j, v) ∷ ps) tried i w hit (Memᴰ.head same) e =
      let here = subst (λ (p : ℕ × A). test p.0 p.1 ≡ some hit) same e in rw here (Memᴰ.head refl)
  sweep_finds ((j, v) ∷ ps) tried i w hit (Memᴰ.tail m) e =
      let rest = sweep_finds ps (count_one tried) i w hit m e in
      elim (Option-cases (test j v)) [
        | inl fails ↦ rw fails rest
        | inr (found, e') ↦ rw e' (Memᴰ.tail rest)
      ]

  -- The counter gains the number of windows, modulo 2^64.
  pub sweep_tried :
      (ps : List (ℕ × A)) (tried : ℕ)
      → tried < 2 ^ 64
      → (sweep false test ps tried).0 ≡ (tried + length ps) % 2 ^ 64
  unfolding sweep
  sweep_tried [] tried h = omega arith
  sweep_tried ((i, w) ∷ ps) tried h = ground (arith, sweep_tried ps (count_one tried))

  -- A sweep that is told to stop looks at nothing.
  pub sweep_stopped : (ps : List (ℕ × A)) (tried : ℕ) → sweep true test ps tried ≡ (tried, [])
  unfolding sweep
  sweep_stopped [] tried = refl
  sweep_stopped ((i, w) ∷ ps) tried = sweep_stopped ps tried

module _ {ℓ κ} {A : Type ℓ} {H : Type κ} (n : ℕ) (test : ℕ → List A → Option H) (xs : List A) where
  -- The sweep over the windows of `n`, in terms of the list that they come from.
  pub sweep_complete :
      (tried i : ℕ) (hit : H)
      → 0 < n
      → i + n ≤ length xs
      → test i (take n (drop i xs)) ≡ some hit
      → Memᴰ hit (sweep false test (positions n xs) tried).1
  sweep_complete tried i hit pos fits e =
      sweep_finds test (positions n xs) tried i (take n (drop i xs)) hit
        (subst (λ (t : ℕ). Memᴰ (t, take n (drop i xs)) (positions n xs)) from_zero
          (window_visited n xs 0 i (take n (drop i xs)) pos
            (record { inside = fits; reads = refl })))
        e
    where
      from_zero : 0 + i ≡ i
      from_zero = omega arith

  pub sweep_sound :
      (tried : ℕ) (hit : H)
      → Memᴰ hit (sweep false test (positions n xs) tried).1
      → (i : ℕ) × (i + n ≤ length xs) × (test i (take n (drop i xs)) ≡ some hit)
  sweep_sound tried hit m =
      let (j, w, at, e) = swept_from test (positions n xs) tried hit m in
      let (i, same, win) = visited-IsWindow n xs 0 j w at in
      let here : j ≡ i = omega arith in
      (
        i,
        win.inside,
        subst (λ v. test i v ≡ some hit) win.reads (subst (λ t. test t w ≡ some hit) here e),
      )

  pub sweep_count :
      (tried : ℕ)
      → 0 < n
      → tried < 2 ^ 64
      → (sweep false test (positions n xs) tried).0 ≡ (tried + (length xs + 1 - n)) % 2 ^ 64
  sweep_count tried pos h =
      sweep_tried test (positions n xs) tried h
      ∙ ap (λ (t : ℕ). (tried + t) % 2 ^ 64)
          (length-enumerate_from 0 (windows n xs) ∙ length-windows n xs pos)
