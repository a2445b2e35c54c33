-- ===== src/Dhcp/OptionLaws.antt =====
-- What `put_opt` of src/dhcp_server.c writes, `find_opt` reads.
use molewire.Base.{
  ℕ, zero, suc, ◌+◌, ◌-◌, ◌<◌, ◌≡◌, ◌≢◌, inl, inr, refl, sym, ap, ◌∙◌, subst, arith, Bool-cases,
  true, false, Option, none, some, List, [], ◌∷◌, ◌++◌, length, length-append, get_or, ltb, ◌==◌,
  if◌then◌else◌, Bytes,
}
use mathlib.Core.List.{append_assoc, append-nil}
use molewire.Dhcp.Options.{opt_pad, opt_end, find_loop, find_opt, put_opt}

find_loop-in_bounds :
    (fuel : ℕ) (opts : Bytes) (len code i : ℕ) {q : ℕ}
    → find_loop fuel opts len code i ≡ some q
    → (i < q) × (q + opts q < len) × (opts (q - 1) ≡ code)
unfolding find_loop
find_loop-in_bounds zero opts len code i e = cc
find_loop-in_bounds (suc fuel) opts len code i {q} e = ground (
  arith,
  find_loop-in_bounds fuel opts len code (i + 1) {q = q},
  find_loop-in_bounds fuel opts len code (i + 2 + opts (i + 1)) {q = q},
)

-- An option that is found stands, with its code before it and all of its value, inside the block.
pub find_opt-in_bounds :
    (opts : Bytes) (len code : ℕ) {q : ℕ}
    → find_opt opts len code ≡ some q
    → (0 < q) × (q + opts q < len) × (opts (q - 1) ≡ code)
unfolding find_opt
find_opt-in_bounds opts len code e = find_loop-in_bounds len opts len code 0 e

pub record Opt : Type 0 where
  pub code : ℕ
  pub val : List ℕ

-- Options one behind the other.
abbrev pub encode : List Opt → List ℕ
encode [] = []
encode (o ∷ os) = o.code ∷ length o.val ∷ (o.val ++ encode os)

-- The first value of a code.
abbrev pub lookup : List Opt → ℕ → Option (List ℕ)
lookup [] c = none
lookup (o ∷ os) c = if o.code == c then some o.val else lookup os c

-- No code is that of padding or of the end.
abbrev pub IsLegal : List Opt → Type 0
IsLegal [] = Unit
IsLegal (o ∷ os) = (o.code ≢ opt_pad) × (o.code ≢ opt_end) × IsLegal os

-- The bytes from `i` on.
abbrev pub At : Bytes → ℕ → List ℕ → Type 0
At p i [] = Unit
At p i (x ∷ xs) = (p i ≡ x) × At p (i + 1) xs

At-append :
    (p : Bytes) (i : ℕ) (xs ys : List ℕ) → At p i (xs ++ ys) → At p i xs × At p (i + length xs) ys
At-append p i [] ys h = let e : i + 0 ≡ i = omega arith in (tt, subst (λ j. At p j ys) (sym e) h)
At-append p i (x ∷ xs) ys h =
    let r = At-append p (i + 1) xs ys h.1 in
    let e : i + suc (length xs) ≡ i + 1 + length xs = omega arith in
    ((h.0, r.0), subst (λ j. At p j ys) (sym e) r.1)

-- A search for `c` that ended with `found` agrees with the list of options.
abbrev pub Reads : Bytes → Option (List ℕ) → Option ℕ → Type 0
Reads p none found = found ≡ none
Reads p (some v) found = (k : ℕ) × (found ≡ some k) × (p k ≡ length v) × At p (k + 1) v

pub encode-append : (os qs : List Opt) → encode (os ++ qs) ≡ encode os ++ encode qs
encode-append [] qs = refl
encode-append (o ∷ os) qs =
    ap (λ z. o.code ∷ length o.val ∷ z)
      (ap (◌++◌ o.val) (encode-append os qs) ∙ sym (append_assoc o.val (encode os) (encode qs)))

pub put_opt-encode :
    (os : List Opt) (c : ℕ) (v : List ℕ)
    → put_opt (encode os) c v ≡ encode (os ++ (record { code = c; val = v } ∷ []))
unfolding put_opt
put_opt-encode os c v =
    ap (λ z. encode os ++ (c ∷ length v ∷ z)) (sym (append-nil v))
    ∙ sym (encode-append os (record { code = c; val = v } ∷ []))

find_loop-encode :
    (fuel : ℕ) (p : Bytes) (len c i : ℕ) (os : List Opt)
    → At p i (encode os ++ (opt_end ∷ []))
    → len ≡ i + length (encode os) + 1
    → length (encode os) < fuel
    → IsLegal os
    → Reads p (lookup os c) (find_loop fuel p len c i)
unfolding find_loop
find_loop-encode zero p len c i os at e f legal = absurd (omega arith)
find_loop-encode (suc fuel) p len c i [] at e f legal = ground arith
find_loop-encode (suc fuel) p len c i (o ∷ os) at e f legal =
    let size = length-append o.val (encode os) in
    let body : At p (i + 1 + 1) (o.val ++ (encode os ++ (opt_end ∷ []))) =
      subst (At p (i + 1 + 1)) (append_assoc o.val (encode os) (opt_end ∷ [])) at.1.1 in
    let parts = At-append p (i + 1 + 1) o.val (encode os ++ (opt_end ∷ [])) body in
    let inside : ltb (i + 1) len ≡ true = ground (arith, e) in
    let no_end : o.code == opt_end ≡ false = ground (arith, legal.1) in
    let no_pad : o.code == opt_pad ≡ false = ground (arith, legal.0) in
    let whole : ltb len (i + 2 + length o.val) ≡ false = ground (arith, e, size) in
    elim (Bool-cases (o.code == c)) [
      | inl hit ↦
          rw (at.0, at.1.0, inside, no_end, no_pad, whole, hit) (i + 1, refl, at.1.0, parts.0)
      | inr miss ↦
          let next : i + 1 + 1 + length o.val ≡ i + 2 + length o.val = omega arith in
          rw (at.0, at.1.0, inside, no_end, no_pad, whole, miss)
            (find_loop-encode fuel p len c (i + 2 + length o.val) os
              (subst (λ j. At p j (encode os ++ (opt_end ∷ []))) next parts.1)
              (omega (arith, e, size)) (omega (arith, f, size)) legal.2)
    ]

-- A block of options that ends as `dhcp_recv` ends it reads back: each code gives its first value.
pub find_opt-encode :
    (p : Bytes) (c : ℕ) (os : List Opt)
    → At p 0 (encode os ++ (opt_end ∷ []))
    → IsLegal os
    → Reads p (lookup os c) (find_opt p (length (encode os ++ (opt_end ∷ []))) c)
unfolding find_opt
find_opt-encode p c os at legal =
    let size = length-append (encode os) (opt_end ∷ []) in
    find_loop-encode (length (encode os ++ (opt_end ∷ []))) p (length (encode os ++ (opt_end ∷ [])))
      c 0 os at (omega (arith, size)) (omega (arith, size)) legal

-- A list of bytes as a buffer.
abbrev pub bytes_of : List ℕ → Bytes
bytes_of xs i = get_or xs i 0

At-shift : (p : Bytes) (i : ℕ) (xs : List ℕ) → At (λ j. p (suc j)) i xs → At p (suc i) xs
At-shift p i [] h = tt
At-shift p i (x ∷ xs) h =
    let e : suc (i + 1) ≡ suc i + 1 = omega arith in
    (h.0, subst (λ j. At p j xs) e (At-shift p (i + 1) xs h.1))

pub bytes_of-At : (xs : List ℕ) → At (bytes_of xs) 0 xs
bytes_of-At [] = tt
bytes_of-At (x ∷ xs) =
    let e : suc 0 ≡ 0 + 1 = omega arith in
    (
      refl,
      subst (λ j. At (bytes_of (x ∷ xs)) j xs) e
          (At-shift (bytes_of (x ∷ xs)) 0 xs (bytes_of-At xs)),
    )
