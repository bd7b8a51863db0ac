-- ===== src/Builtins/Scans.antt =====
-- The loops of src/fex_builtins.c that move an index over a class of bytes.
use fex.Common.{
  ◌==◌, ==→eq, ℕ, zero, suc, ◌+◌, ◌-◌, ◌<◌, ◌≤◌, ◌≡◌, refl, sym, ◌∙◌, ◌⊎◌, inl, inr, Bool, true,
  false, ◌&&◌, [], ◌∷◌, Bytes, ltb, ltb→lt, ltb_false→le, length, arith, Bool-cases,
}
use mathlib.Core.Bool.{true≢false}
use mathlib.Core.Path.{subst}
use fex.Builtins.{byte, back_while, forth_while}

module _ (test : ℕ → Bool) (limit e : ℕ) (buffer : Bytes) where
  back_go :
      ltb limit (suc e) && test (byte buffer e) ≡ true
      → back_while test limit (suc e) buffer ≡ back_while test limit e buffer
  unfolding back_while
  back_go h = rw (h, back_while) refl

  back_stop :
      ltb limit (suc e) && test (byte buffer e) ≡ false
      → back_while test limit (suc e) buffer ≡ suc e
  unfolding back_while
  back_stop h = rw (h, back_while) refl

-- Where the loop from the end stops: the bytes behind it are of the class, and the one before it is
-- not, or it is at the limit.
pub record Back (test : ℕ → Bool) (limit end : ℕ) (buffer : Bytes) (e : ℕ) : Type 0 where
  pub le : e ≤ end
  pub behind : (i : ℕ) → e ≤ i → i < end → test (byte buffer i) ≡ true
  pub stop : (e ≤ limit) ⊎ (test (byte buffer (e - 1)) ≡ false)
  pub limit_le : limit ≤ end → limit ≤ e

both : (a b : Bool) → a && b ≡ true → (a ≡ true) × (b ≡ true)
both true b h = (refl, h)
both false b h = cc

pub back_while-Back :
    (test : ℕ → Bool) (limit end : ℕ) (buffer : Bytes)
    → Back test limit end buffer (back_while test limit end buffer)
back_while-Back test limit zero buffer =
    unfold back_while in
    record {
      le = omega arith;
      behind = λ i le lt. absurd (omega (arith, le, lt));
      stop = inl (omega arith);
      limit_le = λ h. h;
    }
back_while-Back test limit (suc e) buffer =
    elim (Bool-cases (ltb limit (suc e) && test (byte buffer e))) [
      | inl go ↦
          let b = back_while-Back test limit e buffer in
          let (room, class) = both (ltb limit (suc e)) (test (byte buffer e)) go in
          rw (back_go test limit e buffer go) (record {
            le = omega (arith, b.le);
            behind = λ i le lt. elim (Bool-cases (i == e)) [
              | inl same ↦ subst (λ j. test (byte buffer j) ≡ true) (sym (==→eq i e same)) class
              | inr other ↦ b.behind i le (below i lt other)
            ];
            stop = b.stop;
            limit_le = λ h. b.limit_le (omega (arith, ltb→lt limit (suc e) room));
          })
      | inr stop ↦ rw (back_stop test limit e buffer stop) (record {
        le = omega arith;
        behind = λ i le lt. absurd (omega (arith, le, lt));
        stop = stopped (ltb limit (suc e)) refl stop;
        limit_le = λ h. h;
      })
    ]
  where
    below : (i : ℕ) → i < suc e → (i == e) ≡ false → i < e
    below i lt other = ground (arith, lt, other)

    stopped :
        (a : Bool)
        → ltb limit (suc e) ≡ a
        → a && test (byte buffer e) ≡ false
        → (suc e ≤ limit) ⊎ (test (byte buffer (suc e - 1)) ≡ false)
    stopped false beyond h = inl (ltb_false→le limit (suc e) beyond)
    stopped true room h = inr (subst (λ j. test (byte buffer j) ≡ false) (omega arith) h)

-- A run of bytes of the class is passed up to a byte that is not, or to the limit.
pub back_while-run :
    (test : ℕ → Bool) (limit e k : ℕ) (buffer : Bytes)
    → limit ≤ e
    → ((i : ℕ) → e ≤ i → i < e + k → test (byte buffer i) ≡ true)
    → (e ≡ limit) ⊎ (test (byte buffer (e - 1)) ≡ false)
    → back_while test limit (e + k) buffer ≡ e
back_while-run test limit e k buffer le run stop =
    let b = back_while-Back test limit (e + k) buffer in
    elim (Bool-cases (ltb e (back_while test limit (e + k) buffer))) [
      | inl above ↦ absurd (not_above _ b (ltb→lt e _ above))
      | inr not_above ↦ elim (Bool-cases (ltb (back_while test limit (e + k) buffer) e)) [
        | inl under ↦ absurd (not_under _ b (ltb→lt _ e under))
        | inr not_under ↦ omega (arith, ltb_false→le e _ not_above, ltb_false→le _ e not_under)
      ]
    ]
  where
    not_above : (r : ℕ) → Back test limit (e + k) buffer r → e < r → ⊥
    not_above r b above = elim b.stop [
      | inl small ↦ omega (arith, small, le, above)
      | inr other ↦
          true≢false (sym (run (r - 1) (omega (arith, above)) (omega (arith, above, b.le))) ∙ other)
    ]

    not_under : (r : ℕ) → Back test limit (e + k) buffer r → r < e → ⊥
    not_under r b under = elim stop [
      | inl at ↦ omega (arith, b.limit_le (omega (arith, le)), at, under)
      | inr other ↦
          true≢false (sym (b.behind (e - 1) (omega (arith, under)) (omega (arith, under))) ∙ other)
    ]

-- Where the loop from the start stops.
pub record Forth (test : ℕ → Bool) (start : ℕ) (rest : Bytes) (s : ℕ) : Type 0 where
  pub le : start ≤ s
  pub bound : s ≤ start + length rest
  pub front : (i : ℕ) → start + i < s → test (byte rest i) ≡ true
  pub stop : (s ≡ start + length rest) ⊎ (test (byte rest (s - start)) ≡ false)

module _ (test : ℕ → Bool) (start : ℕ) (c : ℕ) (rest : Bytes) where
  forth_go : test c ≡ true → forth_while test start (c ∷ rest) ≡ forth_while test (suc start) rest
  unfolding forth_while
  forth_go h = rw (h, forth_while) refl

  forth_stop : test c ≡ false → forth_while test start (c ∷ rest) ≡ start
  unfolding forth_while
  forth_stop h = rw (h, forth_while) refl

pub forth_while-Forth :
    (test : ℕ → Bool) (start : ℕ) (rest : Bytes)
    → Forth test start rest (forth_while test start rest)
forth_while-Forth test start [] =
    unfold forth_while in
    record {
      le = omega arith;
      bound = omega arith;
      front = λ i lt. absurd (omega (arith, lt));
      stop = inl (omega arith);
    }
forth_while-Forth test start (c ∷ rest) = elim (Bool-cases (test c)) [
  | inl class ↦
      subst (Forth test start (c ∷ rest)) (sym (forth_go test start c rest class))
        (further _ class (forth_while-Forth test (suc start) rest))
  | inr other ↦
      subst (Forth test start (c ∷ rest)) (sym (forth_stop test start c rest other)) (record {
        le = omega arith;
        bound = omega arith;
        front = λ i lt. absurd (omega (arith, lt));
        stop = inr (subst (λ j. test (byte (c ∷ rest) j) ≡ false) here other);
      })
]
  where
    here : 0 ≡ start - start
    here = omega arith

    further :
        (s : ℕ) → test c ≡ true → Forth test (suc start) rest s → Forth test start (c ∷ rest) s
    further s class f = record {
      le = omega (arith, f.le);
      bound = omega (arith, f.bound);
      front = front;
      stop = elim f.stop [
        | inl e ↦ inl (omega (arith, e))
        | inr other ↦ inr (subst (λ j. test (byte (c ∷ rest) j) ≡ false) (one_more f.le) other)
      ];
    }
      where
        one_more : suc start ≤ s → suc (s - suc start) ≡ s - start
        one_more le = omega (arith, le)

        front : (i : ℕ) → start + i < s → test (byte (c ∷ rest) i) ≡ true
        front zero lt = class
        front (suc i) lt = f.front i (omega (arith, lt))
