-- ===== src/World/Keeps.antt =====
-- What commands on the world keep: a rule for each way to build a command.
use artorias.Prelude.{
  ◌≡◌, refl, Bool, true, false, Option, none, some, ◌==◌, if◌then◌else◌, inl, inr, arith,
  Bool-cases,
}
use artorias.RbTree.Store.{Ptr, null}
use artorias.World.{
  Thread, Res, World, Outcome, continue, ended, crash, no_fuel, Act, ◌>>=◌, pure, give_up, gets,
  present, get_thread, put_thread, update, get_res,
}

abbrev pub Holds : {A : Type 0} → (A → World → Type 0) → Outcome A → Type 0
Holds Q (ended a w) = Q a w
Holds Q crash = Unit
Holds Q no_fuel = Unit

pub Holds-any : {A : Type 0} (r : Outcome A) → Holds (λ a w. Unit {0}) r
Holds-any (ended a w) = tt
Holds-any crash = tt
Holds-any no_fuel = tt

-- From a world with `P`, whatever `m` ends with has `Q`.
pub record Ensures {A : Type 0} (P : World → Type 0) (m : Act A) (Q : A → World → Type 0)
    : Type 0 where
  pub at : (w : World) → P w → Holds Q (m w)

module _ {A B : Type 0} where
  continue-Holds :
      (Q : A → World → Type 0) (R : B → World → Type 0) (r : Outcome A) (f : A → Act B)
      → ((a : A) (w : World) → Q a w → Holds R (f a w))
      → Holds Q r
      → Holds R (continue r f)
  continue-Holds Q R (ended a w) f next h = next a w h
  continue-Holds Q R crash f next h = tt
  continue-Holds Q R no_fuel f next h = tt

  pub Ensures-bind :
      {P : World → Type 0} (Q : A → World → Type 0) {R : B → World → Type 0} (m : Act A)
      (f : A → Act B)
      → Ensures P m Q
      → ((a : A) → Ensures (Q a) (f a) R)
      → Ensures P (m >>= f) R
  unfolding ◌>>=◌
  Ensures-bind Q {R} m f e next = record {
    at = λ w h. continue-Holds Q R (m w) f (λ a w. (next a).at w) (e.at w h);
  }

module _ {A : Type 0} where
  pub Ensures-pure :
      (P : World → Type 0) (Q : A → World → Type 0) (a : A)
      → ((w : World) → P w → Q a w)
      → Ensures P (pure a) Q
  unfolding pure
  Ensures-pure P Q a f = record { at = f }

  pub Ensures-if :
      (P : World → Type 0) (Q : A → World → Type 0) (b : Bool) (m n : Act A)
      → (b ≡ true → Ensures P m Q)
      → (b ≡ false → Ensures P n Q)
      → Ensures P (if b then m else n) Q
  Ensures-if P Q true m n km kn = km refl
  Ensures-if P Q false m n km kn = kn refl

  pub Ensures-pre :
      (P P' : World → Type 0) (Q : A → World → Type 0) (m : Act A)
      → ((w : World) → P' w → P w)
      → Ensures P m Q
      → Ensures P' m Q
  Ensures-pre P P' Q m f e = record { at = λ w h. e.at w (f w h) }

  post-Holds :
      (Q R : A → World → Type 0) (r : Outcome A)
      → ((a : A) (w : World) → Q a w → R a w)
      → Holds Q r
      → Holds R r
  post-Holds Q R (ended a w) f h = f a w h
  post-Holds Q R crash f h = tt
  post-Holds Q R no_fuel f h = tt

  pub Ensures-post :
      (P : World → Type 0) (Q R : A → World → Type 0) (m : Act A)
      → ((a : A) (w : World) → Q a w → R a w)
      → Ensures P m Q
      → Ensures P m R
  Ensures-post P Q R m f e = record { at = λ w h. post-Holds Q R (m w) f (e.at w h) }

pub Ensures-get_thread :
    (P : World → Type 0) (p : Ptr) → Ensures P (get_thread p) (λ t w. P w × (w.threads p ≡ some t))
unfolding get_thread ◌>>=◌ gets present
Ensures-get_thread P p = record {
  at = λ w h. elim (Bool-cases (p == null)) [
    | inl nowhere ↦ rw nowhere tt
    | inr somewhere ↦ rw somewhere (found w h (w.threads p) refl)
  ];
}
  where
    found :
        (w : World) (h : P w) (o : Option Thread)
        → w.threads p ≡ o
        → Holds (λ t w. P w × (w.threads p ≡ some t)) (present o w)
    found w h none e = tt
    found w h (some t) e = (h, e)

pub Ensures-put_thread :
    (Q : World → Type 0) (p : Ptr) (o : Option Thread)
    → Ensures (λ w. Q (record w { threads = update w.threads p o })) (put_thread p o) (λ a. Q)
unfolding put_thread
Ensures-put_thread Q p o = record { at = λ w h. h }

pub update_self : {A : Type 0} (f : Ptr → A) (p : Ptr) (o : A) → update f p o p ≡ o
unfolding update
update_self f p o = ground arith

-- `m` keeps `P`.
pub record Keeps (P : World → Type 0) {A : Type 0} (m : Act A) : Type 0 where
  pub at : (w : World) → P w → Holds (λ a. P) (m w)

module _ {P : World → Type 0} {A : Type 0} where
  pub Keeps-pure : (a : A) → Keeps P (pure a)
  unfolding pure
  Keeps-pure a = record { at = λ w h. h }

  pub Keeps-give_up : Keeps P (give_up {A = A})
  unfolding give_up
  Keeps-give_up = record { at = λ w h. tt }

  pub Keeps-crash : Keeps P {A = A} (λ _. crash)
  Keeps-crash = record { at = λ w h. tt }

  pub Keeps-gets : (f : World → A) → Keeps P (gets f)
  unfolding gets
  Keeps-gets f = record { at = λ w h. h }

  pub Keeps-present : (o : Option A) → Keeps P (present o)
  unfolding present
  Keeps-present none = record { at = λ w h. tt }
  Keeps-present (some a) = record { at = λ w h. h }

  pub Keeps-if : (b : Bool) (m n : Act A) → Keeps P m → Keeps P n → Keeps P (if b then m else n)
  Keeps-if true m n km kn = km
  Keeps-if false m n km kn = kn

  pub Keeps-Ensures : (m : Act A) → Ensures P m (λ a. P) → Keeps P m
  Keeps-Ensures m e = record { at = e.at }

  pub Ensures-Keeps : (m : Act A) → Keeps P m → Ensures P m (λ a. P)
  Ensures-Keeps m k = record { at = k.at }

module _ {P : World → Type 0} {A B : Type 0} where
  pub Keeps-bind :
      (m : Act A) (f : A → Act B) → Keeps P m → ((a : A) → Keeps P (f a)) → Keeps P (m >>= f)
  Keeps-bind m f km kf =
      Keeps-Ensures _
        (Ensures-bind (λ a. P) m f (Ensures-Keeps m km) (λ a. Ensures-Keeps (f a) (kf a)))

pub ruleset keeps_rules =
    (Keeps-pure, Keeps-give_up, Keeps-crash, Keeps-gets, Keeps-present, Keeps-if, Keeps-bind)

pub Ensures-get_res :
    (P : World → Type 0) (p : Ptr) → Ensures P (get_res p) (λ r w. P w × (w.ress p ≡ some r))
unfolding get_res ◌>>=◌ gets present
Ensures-get_res P p = record {
  at = λ w h. elim (Bool-cases (p == null)) [
    | inl nowhere ↦ rw nowhere tt
    | inr somewhere ↦ rw somewhere (found w h (w.ress p) refl)
  ];
}
  where
    found :
        (w : World) (h : P w) (o : Option Res)
        → w.ress p ≡ o
        → Holds (λ r w. P w × (w.ress p ≡ some r)) (present o w)
    found w h none e = tt
    found w h (some r) e = (h, e)
