-- ===== src/Bpf/OpsName/Suffix.antt =====
-- The second loop of `set_scx_ops_name` of src/bpf.rs, which puts the version's suffix after the
-- name.
use scx_cognis.Base.{
  ℕ, zero, suc, ◌+◌, ◌-◌, ◌<◌, ◌≡◌, refl, ap, ◌∙◌, Bool, true, false, ◌||◌, List, [], ◌∷◌, ◌++◌,
  arith, length, get_or, length-append, set-append, length-snoc, append-snoc, All, ◌==◌, ok,
}
use scx_cognis.Bpf.OpsName.{
  Suffixing, put_byte, suffix_turn, suffix_loop, terminate, set_scx_ops_name, is_ascii,
}
use scx_cognis.Bpf.OpsName.Copy.{c_string, copy_bytes_lem}

get_or-append : (pre : List ℕ) (x : ℕ) (r : List ℕ) → get_or (pre ++ x ∷ r) (length pre) 0 ≡ x
get_or-append [] x r = refl
get_or-append (p ∷ pre) x r = get_or-append pre x r

-- The locals when the bytes before `i` are `pre` and those from it on are `rest`.
abbrev at : List ℕ → List ℕ → Bool → List ℕ → Suffixing
at pre rest found bytes = record {
  name_field = pre ++ rest;
  i = length pre;
  found_null = found;
  bytes = bytes;
}

suffix_turn-last :
    (pre : List ℕ) (x : ℕ) (found : Bool) (bytes : List ℕ)
    → suffix_turn (at pre (x ∷ []) found bytes) ≡ (at pre (x ∷ []) found bytes, false)
unfolding suffix_turn
suffix_turn-last pre x found bytes = ground (arith, length-append pre (x ∷ []))

suffix_turn-at :
    (pre : List ℕ) (x y : ℕ) (r : List ℕ) (found : Bool) (bytes : List ℕ)
    → suffix_turn (at pre (x ∷ y ∷ r) found bytes)
      ≡ put_byte (at pre (x ∷ y ∷ r) found bytes) (found || x == 0) bytes
unfolding suffix_turn
suffix_turn-at pre x y r found bytes =
    rw (get_or-append pre x (y ∷ r)) (ground (arith, length-append pre (x ∷ y ∷ r)))

loop-stop :
    (fuel : ℕ) (s s' : Suffixing) → suffix_turn s ≡ (s', false) → suffix_loop (suc fuel) s ≡ s'
unfolding suffix_loop
loop-stop fuel s s' e = rw (e, suffix_loop) (ap (λ p. p.0) e)

loop-more :
    (fuel : ℕ) (s s' : Suffixing)
    → suffix_turn s ≡ (s', true)
    → suffix_loop (suc fuel) s ≡ suffix_loop fuel s'
unfolding suffix_loop
loop-more fuel s s' e = rw (e, suffix_loop) (ap (λ p. suffix_loop fuel p.0) e)

loop-last :
    (fuel : ℕ) (pre : List ℕ) (found : Bool) (bytes : List ℕ)
    → terminate (suffix_loop (suc fuel) (at pre (0 ∷ []) found bytes)) ≡ pre ++ 0 ∷ []
loop-last fuel pre found bytes =
    let s : Suffixing = at pre (0 ∷ []) found bytes in
    rw (loop-stop fuel s s (suffix_turn-last pre 0 found bytes)) (set-append pre 0 0 [])

-- A turn that keeps the byte `x` or writes a byte goes on with one more byte before `i`.
at-snoc :
    (pre : List ℕ) (b : ℕ) (rest : List ℕ) (found : Bool) (bytes : List ℕ)
    → record { name_field = pre ++ b ∷ rest; i = length pre + 1; found_null = found; bytes = bytes }
      ≡ at (pre ++ b ∷ []) rest found bytes
at-snoc pre b rest found bytes = rw (append-snoc pre b rest, length-snoc pre b) refl

loop-end :
    (fuel : ℕ) (pre : List ℕ) (y : ℕ) (r : List ℕ) (found : Bool)
    → (found || 0 == 0) ≡ true
    → terminate (suffix_loop (suc fuel) (at pre (0 ∷ y ∷ r) found [])) ≡ pre ++ 0 ∷ y ∷ r
loop-end fuel pre y r found h =
    let s : Suffixing = at pre (0 ∷ y ∷ r) found [] in
    rw
      (loop-stop fuel s (record s { found_null = true })
        (suffix_turn-at pre 0 y r found [] ∙ rw h refl))
      (set-append pre 0 0 (y ∷ r))

loop-write :
    (fuel : ℕ) (pre : List ℕ) (y : ℕ) (r : List ℕ) (found : Bool) (b : ℕ) (bytes : List ℕ)
    → (found || 0 == 0) ≡ true
    → suffix_loop (suc fuel) (at pre (0 ∷ y ∷ r) found (b ∷ bytes))
      ≡ suffix_loop fuel (at (pre ++ b ∷ []) (y ∷ r) true bytes)
loop-write fuel pre y r found b bytes h =
    loop-more fuel (at pre (0 ∷ y ∷ r) found (b ∷ bytes)) (at (pre ++ b ∷ []) (y ∷ r) true bytes) (
      suffix_turn-at pre 0 y r found (b ∷ bytes)
      ∙ rw (h, set-append pre 0 b (y ∷ r)) (ap (λ s. (s, true)) (at-snoc pre b (y ∷ r) true bytes)))

loop-keep :
    (fuel : ℕ) (pre : List ℕ) (x y : ℕ) (r bytes : List ℕ)
    → (x == 0) ≡ false
    → suffix_loop (suc fuel) (at pre (x ∷ y ∷ r) false bytes)
      ≡ suffix_loop fuel (at (pre ++ x ∷ []) (y ∷ r) false bytes)
loop-keep fuel pre x y r bytes h =
    loop-more fuel (at pre (x ∷ y ∷ r) false bytes) (at (pre ++ x ∷ []) (y ∷ r) false bytes) (
      suffix_turn-at pre x y r false bytes
      ∙ rw h (ap (λ s. (s, true)) (at-snoc pre x (y ∷ r) false bytes)))

-- A field with room has a first byte, here the head that the turns ask for.
abbrev first : ℕ → List ℕ → ℕ
first zero bs = 0
first (suc room) [] = 0
first (suc room) (b ∷ bs) = b

abbrev others : ℕ → List ℕ → List ℕ
others zero bs = []
others (suc room) [] = c_string room []
others (suc room) (b ∷ bs) = c_string room bs

c_string-first : (room : ℕ) (bs : List ℕ) → c_string room bs ≡ first room bs ∷ others room bs
c_string-first zero bs = refl
c_string-first (suc room) [] = refl
c_string-first (suc room) (b ∷ bs) = refl

-- From the first zero on, the loop writes the suffix as far as there is room.
loop-zeros :
    (room fuel : ℕ) (pre : List ℕ) (found : Bool) (bytes : List ℕ)
    → (found || 0 == 0) ≡ true
    → room < fuel
    → terminate (suffix_loop fuel (at pre (c_string room []) found bytes))
      ≡ pre ++ c_string room bytes
loop-zeros room zero pre found bytes f h = absurd (omega arith)
loop-zeros zero (suc fuel) pre found bytes f h = loop-last fuel pre found bytes
loop-zeros (suc room) (suc fuel) pre found [] f h =
    rw (c_string-first room []) (loop-end fuel pre (first room []) (others room []) found f)
loop-zeros (suc room) (suc fuel) pre found (b ∷ bytes) f h =
    let step : suffix_loop (suc fuel) (at pre (0 ∷ c_string room []) found (b ∷ bytes))
        ≡ suffix_loop fuel (at (pre ++ b ∷ []) (c_string room []) true bytes) =
      rw (c_string-first room [])
        (loop-write fuel pre (first room []) (others room []) found b bytes f) in
    ap terminate step
    ∙ loop-zeros room fuel (pre ++ b ∷ []) true bytes refl (omega arith)
    ∙ append-snoc pre b (c_string room bytes)

-- Before it, the loop keeps the bytes of the name.
loop-name :
    (src : List ℕ) (room fuel : ℕ) (pre : List ℕ) (bytes : List ℕ)
    → All (λ c. (c == 0) ≡ false) src
    → room < fuel
    → terminate (suffix_loop fuel (at pre (c_string room src) false bytes))
      ≡ pre ++ c_string room (src ++ bytes)
loop-name [] room fuel pre bytes a h = (loop-zeros room fuel pre false bytes refl h)
loop-name (c ∷ src) room zero pre bytes a h = absurd (omega arith)
loop-name (c ∷ src) zero (suc fuel) pre bytes a h = loop-last fuel pre false bytes
loop-name (c ∷ src) (suc room) (suc fuel) pre bytes (z, a) h =
    let step : suffix_loop (suc fuel) (at pre (c ∷ c_string room src) false bytes)
        ≡ suffix_loop fuel (at (pre ++ c ∷ []) (c_string room src) false bytes) =
      rw (c_string-first room src)
        (loop-keep fuel pre c (first room src) (others room src) bytes z) in
    ap terminate step
    ∙ loop-name src room fuel (pre ++ c ∷ []) bytes a (omega arith)
    ∙ append-snoc pre c (c_string room (src ++ bytes))

suc-pred : (n : ℕ) → suc n - 1 ≡ n
suc-pred n = omega arith

-- On an ASCII name without a zero byte, `set_scx_ops_name` returns no error and leaves in a field of
-- `room + 1` bytes, whatever it held, the name and the version's suffix one after the other, cut to
-- `room` bytes, and zeros after them.
pub set_scx_ops_name-c_string :
    (suffix field src : List ℕ) (room : ℕ)
    → length field ≡ suc room
    → is_ascii src ≡ true
    → All (λ c. (c == 0) ≡ false) src
    → set_scx_ops_name suffix field src ≡ (c_string room (src ++ suffix), ok tt)
unfolding set_scx_ops_name
set_scx_ops_name-c_string suffix field src room l a z =
    rw (a, l, suc-pred room, copy_bytes_lem room src)
      (ap (λ r. (r, ok tt)) (loop-name src room (suc room) [] suffix z (omega arith)))
