-- ===== src/Pconf.antt =====
-- c/src/lua_pconf.c: the values of the configuration, which a Lua state holds in the global `as_config`.
mod Tests
use artorias.Prelude.{
  ℕ, zero, suc, ◌+◌, ◌%◌, ◌^◌, ◌≡◌, refl, sym, ap, subst, ◌∙◌, Bool, true, false, Option, none,
  some, List, [], ◌∷◌, ◌++◌, arith, if◌then◌else◌, length, append_assoc, length-append,
}
use artorias.Lua.{
  Value, nil, integer, float, str, light, table, thread, function, Interp, bottom, top, Outcome,
  ended, raised, bad_index, Act, ◌>>=◌, ◌>>◌, pure, push, get_top, at, push_value, get_table,
}
use artorias.Lua.Stack.{at_bottom}

-- "as_config"
abbrev pub as_config : ℕ
as_config = 100

-- `as_cnf_return_t`: with the type LUA_TNONE, the value is not written. A number is the bit
-- pattern of an `int`.
pub data CnfReturn : Type 0 where
  tnone tnil : CnfReturn
  tnumber tstring : ℕ → CnfReturn

abbrev is_table : Value → Bool
is_table (table t) = true
is_table _ = false

-- `lua_tointeger` of a float that is equal to no integer is 0.
abbrev pub cnf_of : Value → CnfReturn
cnf_of nil = tnil
cnf_of (integer n) = tnumber (n % 2 ^ 32)
cnf_of (float x) = tnumber 0
cnf_of (str s) = tstring s
cnf_of _ = tnone

-- The result on the top; or an error.
abbrev cnf_result : {A K : Type 0} → Outcome K A → CnfReturn
cnf_result (ended a [] l) = tnone
cnf_result (ended a (v ∷ s) l) = cnf_of v
cnf_result (raised l) = tnone
cnf_result bad_index = tnone

abbrev push_texts : List ℕ → List Value → List Value
push_texts [] s = s
push_texts (f ∷ fs) s = push_texts fs (str f ∷ s)

module _ {K : Type 0} (lua : Interp K) where
  -- The loop, from the pass `i` on.
  get_values : ℕ → ℕ → Act K (Unit {0})
  get_values i zero = pure tt
  get_values i (suc left) = do
    v ← at lua (top 1)
    if is_table v
        then push_value lua (bottom i) >> get_table lua (top 2) >> get_values (i + 1) left
        else push nil

  lcf_get_value : Act K (Unit {0})
  unfolding get_values
  lcf_get_value s l = get_values 1 (length s) (lua.get l lua.globals (str as_config) ∷ s) l

  pub lpconf_get_pconf_value : List ℕ → K → CnfReturn
  unfolding lcf_get_value
  lpconf_get_pconf_value fields l = cnf_result (lcf_get_value (push_texts fields []) l)

  -- Through tables within tables, field by field; nil where something else stands.
  abbrev pub follow : K → List ℕ → Value → Value
  follow l [] v = v
  follow l (f ∷ fs) (table t) = follow l fs (lua.get l t (str f))
  follow l (f ∷ fs) _ = nil

  pushed_texts : (fs : List ℕ) (s : List Value) → (xs : List Value) × (push_texts fs s ≡ xs ++ s)
  pushed_texts [] s = ([], refl)
  pushed_texts (f ∷ fs) s =
      let (xs, e) = pushed_texts fs (str f ∷ s) in
      (xs ++ (str f ∷ []), e ∙ sym (append_assoc xs (str f ∷ []) s))

  length-push_texts :
      (fs : List ℕ) (s : List Value) → length (push_texts fs s) ≡ length fs + length s
  length-push_texts [] s = omega arith
  length-push_texts (f ∷ fs) s = length-push_texts fs (str f ∷ s) ∙ omega arith

  -- The value on the top.
  abbrev Gives : Value → K → Outcome K (Unit {0}) → Type 0
  Gives v l r = (s : List Value) × (r ≡ ended tt (v ∷ s) l)

  get_values-Gives :
      (i : ℕ) (fs : List ℕ) (v : Value) (rs zs : List Value) (l : K)
      → i ≡ suc (length zs)
      → Gives (follow l fs v) l (get_values i (length fs) (v ∷ (rs ++ push_texts fs zs)) l)
  unfolding get_values
  get_values-Gives i [] v rs zs l e = (rs ++ zs, refl)
  get_values-Gives i (f ∷ fs) nil rs zs l e = (_, refl)
  get_values-Gives i (f ∷ fs) (integer x) rs zs l e = (_, refl)
  get_values-Gives i (f ∷ fs) (float x) rs zs l e = (_, refl)
  get_values-Gives i (f ∷ fs) (str x) rs zs l e = (_, refl)
  get_values-Gives i (f ∷ fs) (light x) rs zs l e = (_, refl)
  get_values-Gives i (f ∷ fs) (thread x) rs zs l e = (_, refl)
  get_values-Gives i (f ∷ fs) (function x) rs zs l e = (_, refl)
  get_values-Gives i (f ∷ fs) (table t) rs zs l e =
      let (xs, pushed) = pushed_texts fs (str f ∷ zs) in
      let stack = table t ∷ (rs ++ push_texts fs (str f ∷ zs)) in
      let same : (table t ∷ (rs ++ xs)) ++ (str f ∷ zs) ≡ stack =
        ap (table t ∷◌) (append_assoc rs xs (str f ∷ zs) ∙ ap (λ ys. rs ++ ys) (sym pushed)) in
      let key : at lua (bottom i) stack l ≡ ended (str f) stack l =
        subst (λ s. at lua (bottom i) s l ≡ ended (str f) s l) same
          (at_bottom lua i (table t ∷ (rs ++ xs)) (str f) zs l e) in
      let (s, rest) =
        get_values-Gives (i + 1) fs (lua.get l t (str f)) (table t ∷ rs) (str f ∷ zs) l
          (omega arith) in
      (s, rw key rest)

  -- For any names, `lpconf_get_pconf_value` returns the type and value of what the reference
  -- `follow` finds from the global `as_config`: going through tables within tables name by name,
  -- and nil where a name is left and there is no table. A number is returned as the low 32 bits of
  -- its integer value, as an `int`, and as 0 if it is equal to no 64-bit integer; a value that is
  -- no nil, number or text is returned as none.
  pub lpconf_get_pconf_value-follow :
      (fields : List ℕ) (l : K)
      → lpconf_get_pconf_value fields l
        ≡ cnf_of (follow l fields (lua.get l lua.globals (str as_config)))
  unfolding lpconf_get_pconf_value
  lpconf_get_pconf_value-follow fields l =
      let n = length-push_texts fields [] in
      let count : length (push_texts fields []) ≡ length fields = omega arith in
      let (s, e) = get_values-Gives 1 fields (lua.get l lua.globals (str as_config)) [] [] l refl in
      rw (count, e) refl
