-- ===== src/World/Calm.antt =====
-- What commands on the world leave alone: the stopped threads and their list.
use artorias.Prelude.{◌≡◌, refl, ◌∙◌, Bool, true, false, Option, none, some, if◌then◌else◌}
use artorias.RbTree.Store.{Ptr, Run, done, fault, out_of_fuel, Cmd}
use artorias.World.{
  Thread, Res, PoolName, io_pool, sleep_pool, World, Outcome, continue, ended, crash, no_fuel, Act,
  ◌>>=◌, pure, give_up, gets, modify, present, get_thread, get_res, put_res, on_pool, after_tree,
  root_of,
}
use artorias.World.Keeps.{Holds, Ensures, Keeps, Keeps-Ensures}

-- Two threads at the same place: nothing that matters to the list of stopped threads has changed.
abbrev pub Like : Option Thread → Option Thread → Type 0
Like none none = Unit
Like (some t) (some u) = (u.status ≡ t.status) × (t.pool ≡ none → u.pool ≡ none)
Like none (some u) = ⊥
Like (some t) none = ⊥

pub record Calm (w w' : World) : Type 0 where
  pub stop : w'.stop ≡ w.stop
  pub threads : (p : Ptr) → Like (w.threads p) (w'.threads p)

pub Like-refl : (o : Option Thread) → Like o o
Like-refl none = tt
Like-refl (some t) = (refl, λ h. h)

pub Like-trans : (a b c : Option Thread) → Like a b → Like b c → Like a c
Like-trans none none none h k = tt
Like-trans none none (some c) h k = k
Like-trans none (some b) c h k = absurd h
Like-trans (some a) none c h k = absurd h
Like-trans (some a) (some b) none h k = k
Like-trans (some a) (some b) (some c) (s, p) (s', p') = (s' ∙ s, λ h. p' (p h))

pub Calm-same : (w w' : World) → w'.stop ≡ w.stop → w'.threads ≡ w.threads → Calm w w'
Calm-same w w' s t = record { stop = s; threads = λ p. rw t (Like-refl (w.threads p)) }

pub Calm-trans : (u v w : World) → Calm u v → Calm v w → Calm u w
Calm-trans u v w h k = record {
  stop = k.stop ∙ h.stop;
  threads = λ p. Like-trans (u.threads p) (v.threads p) (w.threads p) (h.threads p) (k.threads p);
}

-- `m` leaves the stopped threads and their list alone.
pub record IsCalm {A : Type 0} (m : Act A) : Type 0 where
  pub at : (w : World) → Holds (λ a w'. Calm w w') (m w)

module _ {A : Type 0} where
  pub IsCalm-pure : (a : A) → IsCalm (pure a)
  unfolding pure
  IsCalm-pure a = record { at = λ w. Calm-same w w refl refl }

  pub IsCalm-give_up : IsCalm (give_up {A = A})
  unfolding give_up
  IsCalm-give_up = record { at = λ w. tt }

  pub IsCalm-crash : IsCalm {A = A} (λ _. crash)
  IsCalm-crash = record { at = λ w. tt }

  pub IsCalm-gets : (f : World → A) → IsCalm (gets f)
  unfolding gets
  IsCalm-gets f = record { at = λ w. Calm-same w w refl refl }

  pub IsCalm-present : (o : Option A) → IsCalm (present o)
  unfolding present
  IsCalm-present none = record { at = λ w. tt }
  IsCalm-present (some a) = record { at = λ w. Calm-same w w refl refl }

  pub IsCalm-if : (b : Bool) (m n : Act A) → IsCalm m → IsCalm n → IsCalm (if b then m else n)
  IsCalm-if true m n km kn = km
  IsCalm-if false m n km kn = kn

  after_tree-Calm :
      (q : PoolName) (w : World) (r : Run A) → Holds (λ a w'. Calm w w') (after_tree q w r)
  after_tree-Calm io_pool w (done a s) = Calm-same w _ refl refl
  after_tree-Calm sleep_pool w (done a s) = Calm-same w _ refl refl
  after_tree-Calm q w fault = tt
  after_tree-Calm q w out_of_fuel = tt

  pub IsCalm-on_pool : (q : PoolName) (m : Cmd A) → IsCalm (on_pool q m)
  unfolding on_pool
  IsCalm-on_pool q m = record {
    at = λ w. after_tree-Calm q w (m (record { root = root_of q w; cell = w.cells }));
  }

pub IsCalm-modify :
    (f : World → World)
    → ((w : World) → (f w).stop ≡ w.stop)
    → ((w : World) → (f w).threads ≡ w.threads)
    → IsCalm (modify f)
unfolding modify
IsCalm-modify f s t = record { at = λ w. Calm-same w (f w) (s w) (t w) }

pub IsCalm-put_res : (p : Ptr) (r : Option Res) → IsCalm (put_res p r)
unfolding put_res
IsCalm-put_res p r = IsCalm-modify _ (λ w. refl) (λ w. refl)

module _ {A B : Type 0} where
  continue-Calm :
      (u : World) (r : Outcome A) (f : A → Act B)
      → ((a : A) → IsCalm (f a))
      → Holds (λ a w. Calm u w) r
      → Holds (λ b w. Calm u w) (continue r f)
  continue-Calm u (ended a w) f next h = further (f a w) ((next a).at w)
    where
      further : (r : Outcome B) → Holds (λ b v. Calm w v) r → Holds (λ b v. Calm u v) r
      further (ended b v) k = Calm-trans u w v h k
      further crash k = tt
      further no_fuel k = tt
  continue-Calm u crash f next h = tt
  continue-Calm u no_fuel f next h = tt

  pub IsCalm-bind :
      (m : Act A) (f : A → Act B) → IsCalm m → ((a : A) → IsCalm (f a)) → IsCalm (m >>= f)
  unfolding ◌>>=◌
  IsCalm-bind m f km kf = record { at = λ w. continue-Calm w (m w) f kf (km.at w) }

pub IsCalm-get_thread : (p : Ptr) → IsCalm (get_thread p)
unfolding get_thread
IsCalm-get_thread p = search (IsCalm-if, IsCalm-crash, IsCalm-bind, IsCalm-gets, IsCalm-present)

pub IsCalm-get_res : (p : Ptr) → IsCalm (get_res p)
unfolding get_res
IsCalm-get_res p = search (IsCalm-if, IsCalm-crash, IsCalm-bind, IsCalm-gets, IsCalm-present)

pub ruleset calm_rules = (
  IsCalm-pure, IsCalm-give_up, IsCalm-crash, IsCalm-gets, IsCalm-present, IsCalm-if, IsCalm-on_pool,
  IsCalm-put_res, IsCalm-bind, IsCalm-get_thread, IsCalm-get_res,
)

module _ {A : Type 0} where
  Calm-Holds :
      (P : World → Type 0) (w : World) (r : Outcome A)
      → ((w' : World) → Calm w w' → P w')
      → Holds (λ a w'. Calm w w') r
      → Holds (λ a. P) r
  Calm-Holds P w (ended a w') f h = f w' h
  Calm-Holds P w crash f h = tt
  Calm-Holds P w no_fuel f h = tt

  -- What calm commands cannot change, they keep.
  pub Ensures-Calm :
      (P : World → Type 0) (m : Act A)
      → ((w w' : World) → Calm w w' → P w → P w')
      → IsCalm m
      → Ensures P m (λ a. P)
  Ensures-Calm P m stable calm = record {
    at = λ w h. Calm-Holds P w (m w) (λ w' c. stable w w' c h) (calm.at w);
  }

pub Keeps-Calm :
    {A : Type 0} (P : World → Type 0)
    → ((w w' : World) → Calm w w' → P w → P w')
    → (m : Act A) → IsCalm m
    → Keeps P m
Keeps-Calm P stable m k = Keeps-Ensures m (Ensures-Calm P m stable k)
