-- ===== src/Wire/Reads.antt =====
-- The loop of `merge_from` over the bytes of a field, and over those of several.
pub mod Fields
pub mod Messages
use sysadmin.Base.{
  ℕ, suc, ◌+◌, ◌-◌, ◌≤◌, ◌<◌, false, Option, none, some, List, [], ◌∷◌, ◌++◌, length, length-append,
  ◌≡◌, refl, sym, ◌∙◌, subst, Result, ok, append-nil, append_assoc, arith, map, All, OptAll,
  opt_map,
}
use sysadmin.Protobuf.{Bytes, WireType, Protobuf}
use sysadmin.Protobuf.Laws.{IsLawful, Fits}
use sysadmin.Wire.{merge_loop}
use sysadmin.Wire.Sizes.{opt, each, Fits-left, Fits-right}

abbrev pub Step : (E M : Type 0) → Type 0
Step E M = ℕ → WireType → M → Bytes → Result E (M × Bytes)

pub eof-append :
    ⦃P : Protobuf⦄ (L : IsLawful P) (xs ys : Bytes) → 1 ≤ length xs → P.eof (xs ++ ys) ≡ ok false
eof-append L [] ys h = absurd (omega arith)
eof-append L (x ∷ xs) ys h = L.eof-cons x (xs ++ ys)

-- Over `bs`, whatever follows, the loop takes some rounds that lead from `m` to `m'`.
pub record Reads ⦃P : Protobuf⦄ {M : Type 0} (field : Step P.ProtobufError M) (m : M) (bs : Bytes)
    (m' : M) : Type 0 where
  pub rounds : ℕ
  pub enough : rounds ≤ length bs
  pub run :
      (fuel : ℕ) (is : Bytes)
      → merge_loop field (rounds + fuel) m (bs ++ is) ≡ merge_loop field fuel m' is

module _ ⦃P : Protobuf⦄ {M : Type 0} (field : Step P.ProtobufError M) where
  merge_loop_end : IsLawful P → (m : M) (fuel : ℕ) → merge_loop field (suc fuel) m [] ≡ ok (m, [])
  unfolding merge_loop
  merge_loop_end L m fuel = rw L.eof-nil

  merge_loop_step :
      (fuel n : ℕ) (wt : WireType) (m m' : M) (is is' is'' : Bytes)
      → P.eof is ≡ ok false
      → P.read_tag_unpack is ≡ ok ((n, wt), is')
      → field n wt m is' ≡ ok (m', is'')
      → merge_loop field (suc fuel) m is ≡ merge_loop field fuel m' is''
  unfolding merge_loop
  merge_loop_step fuel n wt m m' is is' is'' p q r = rw (p, q, r)

module _ ⦃P : Protobuf⦄ {M : Type 0} {field : Step P.ProtobufError M} where
  pub nil_reads : {m : M} → Reads field m [] m
  nil_reads = record {
    rounds = 0;
    enough = omega arith;
    run = λ fuel is. let e : 0 + fuel ≡ fuel = omega arith in rw e;
  }

  pub append_reads :
      {m m' m'' : M} {xs ys : Bytes}
      → Reads field m xs m'
      → Reads field m' ys m''
      → Reads field m (xs ++ ys) m''
  append_reads {xs} {ys} p q = record {
    rounds = p.rounds + q.rounds;
    enough = omega (arith, p.enough, q.enough, length-append xs ys);
    run = λ fuel is.
        let e : p.rounds + q.rounds + fuel ≡ p.rounds + (q.rounds + fuel) = omega arith in
        rw (e, append_assoc xs ys is) (p.run (q.rounds + fuel) (ys ++ is) ∙ q.run fuel is);
  }

  -- The loop of a whole message ends at the end of its bytes.
  pub merge_loop-reads :
      IsLawful P
      → {m m' : M} {bs : Bytes} → Reads field m bs m'
      → merge_loop field (suc (length bs)) m bs ≡ ok (m', [])
  merge_loop-reads L {m} {m'} {bs} p =
      let left : ℕ = length bs - p.rounds in
      let e : suc (length bs) ≡ p.rounds + suc left = omega (arith, p.enough) in
      let q : merge_loop field (p.rounds + suc left) m bs ≡ ok (m', []) =
        subst (λ is. merge_loop field (p.rounds + suc left) m is ≡ ok (m', [])) (append-nil bs)
          (p.run (suc left) [] ∙ merge_loop_end field L m' left) in
      subst (λ fuel. merge_loop field fuel m bs ≡ ok (m', [])) (sym e) q

  -- One field: its tag, its wire type, and the bytes that its reader takes.
  pub field_reads :
      (L : IsLawful P) (n : ℕ) (wt : WireType) (body : Bytes) {m m' : M}
      → 1 ≤ n
      → n < 2048
      → 1 ≤ length (L.tag n wt)
      → ((is : Bytes) → field n wt m (body ++ is) ≡ ok (m', is))
      → Reads field m (L.tag n wt ++ body) m'
  field_reads L n wt body {m} {m'} lo hi long p = record {
    rounds = 1;
    enough = omega (arith, length-append (L.tag n wt) body);
    run = λ fuel is.
        let e : 1 + fuel ≡ suc fuel = omega arith in
        rw (e, append_assoc (L.tag n wt) body is)
          (merge_loop_step field fuel n wt m m' _ (body ++ is) is
            (eof-append L (L.tag n wt) (body ++ is) long)
            (L.read_tag_unpack_lem n wt (body ++ is) lo hi) (p is));
  }

module _ ⦃P : Protobuf⦄ {M A : Type 0} {field : Step P.ProtobufError M} {f : A → Bytes} where
  -- `put` sets the field; `Q` is what holds of its value.
  pub opt_reads :
      (put : Option A → M) (Q : A → Type 0)
      → ((a : A) → Q a → Fits (f a) → Reads field (put none) (f a) (put (some a)))
      → (o : Option A) → OptAll Q o
      → Fits (opt f o)
      → Reads field (put none) (opt f o) (put o)
  unfolding opt
  opt_reads put Q p none q h = nil_reads
  opt_reads put Q p (some a) q h = p a q h

  -- The value is parsed as `g` of it.
  pub opt_map_reads :
      (put : Option A → M) (g : A → A) (Q : A → Type 0)
      → ((a : A) → Q a → Fits (f a) → Reads field (put none) (f a) (put (some (g a))))
      → (o : Option A) → OptAll Q o
      → Fits (opt f o)
      → Reads field (put none) (opt f o) (put (opt_map g o))
  unfolding opt
  opt_map_reads put g Q p none q h = nil_reads
  opt_map_reads put g Q p (some a) q h = p a q h

  -- `put` sets a repeated field; `Q` is what holds of its elements, which are parsed as `g` of them.
  pub each_reads :
      (put : List A → M) (g : A → A) (Q : A → Type 0)
      → ((a : A) (before : List A)
          → Q a
          → Fits (f a)
          → Reads field (put before) (f a) (put (before ++ (g a ∷ []))))
      → (as' before : List A) → All Q as'
      → Fits (each f as')
      → Reads field (put before) (each f as') (put (before ++ map g as'))
  unfolding each
  each_reads put g Q p [] before q h = rw append-nil nil_reads
  each_reads put g Q p (a ∷ as') before (q, qs) h =
      let e : before ++ (g a ∷ map g as') ≡ (before ++ (g a ∷ [])) ++ map g as' =
        sym (append_assoc before (g a ∷ []) (map g as')) in
      rw e (
        append_reads (p a before q (Fits-left (f a) (each f as') h))
          (each_reads put g Q p as' (before ++ (g a ∷ [])) qs (Fits-right (f a) (each f as') h)))

-- The same, if a `u32` can count the bytes.
pub record Parses ⦃P : Protobuf⦄ {M : Type 0} (field : Step P.ProtobufError M) (m : M) (bs : Bytes)
    (m' : M) : Type 0 where
  pub parse : Fits bs → Reads field m bs m'

module _ ⦃P : Protobuf⦄ {M : Type 0} {field : Step P.ProtobufError M} where
  pub append-Parses :
      {m m' m'' : M} {xs ys : Bytes}
      → Parses field m xs m'
      → Parses field m' ys m''
      → Parses field m (xs ++ ys) m''
  append-Parses {xs} {ys} p q = record {
    parse = λ h. append_reads (p.parse (Fits-left xs ys h)) (q.parse (Fits-right xs ys h));
  }

  pub nil-Parses : {m : M} → Parses field m [] m
  nil-Parses = record { parse = λ _. nil_reads }
