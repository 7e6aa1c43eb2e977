-- ===== src/Wire/Initialized.antt =====
-- Parsing forgets the cached sizes, and keeps what is set.
use sysadmin.Base.{Bool, Option, none, some, List, [], ◌∷◌, map, opt_map, is_some, ◌≡◌, refl, arith}
use sysadmin.Wire.{opt_initialized, all_initialized}

module _ {A : Type 0} (g : A → A) where
  pub is_some-opt_map : (o : Option A) → is_some (opt_map g o) ≡ is_some o
  is_some-opt_map none = refl
  is_some-opt_map (some a) = refl

  module _ (test : A → Bool) (same : (a : A) → test (g a) ≡ test a) where
    pub opt_initialized-opt_map :
        (o : Option A) → opt_initialized test (opt_map g o) ≡ opt_initialized test o
    unfolding opt_initialized
    opt_initialized-opt_map none = refl
    opt_initialized-opt_map (some a) = same a

    pub all_initialized-map :
        (as' : List A) → all_initialized test (map g as') ≡ all_initialized test as'
    unfolding all_initialized
    all_initialized-map [] = refl
    all_initialized-map (a ∷ as') = ground (arith, same a, all_initialized-map as')
