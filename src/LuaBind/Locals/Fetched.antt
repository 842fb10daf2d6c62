-- ===== src/LuaBind/Locals/Fetched.antt =====
-- c/src/lua_bind.c: setting a local variable of a Lua thread, and getting several.
use artorias.Prelude.{
  ℕ, zero, suc, ◌+◌, ◌≡◌, refl, sym, ap, subst, ◌∙◌, true, false, List, [], ◌∷◌, ◌++◌, ◌==◌, arith,
  length, take, replicate, append_assoc, length-append,
}
use artorias.Lua.{Value, str, light, table, thread, Interp, IsInterp, bottom, ended, at}
use artorias.Lua.Stack.{at_bottom}
use artorias.LuaBind.Threads.{returned, lrk_thread_local_var_table}
use artorias.LuaBind.Threads.Lent.{not_there}
use artorias.LuaBind.Locals.{
  ptr_arg, get_fields, push_names, lbind_get_thread_local_vars, set_va_list,
}

module _ {K : Type 0} (lua : Interp K) (self c : ℕ) where
  -- The thread has its table `c` of local variables.
  pub record HasLocals (b : ℕ) (l : K) : Type 0 where
    pub locals_there : lua.get l lua.registry (str lrk_thread_local_var_table) ≡ table b
    pub own : lua.get l b (thread self) ≡ table c

  set_one :
      (b f p : ℕ) (s : List Value) (l : K)
      → HasLocals b l
      → set_va_list lua self 0 ((f, ptr_arg p) ∷ []) s l
        ≡ returned tt (lua.set l c (str f) (light p))
  unfolding set_va_list
  set_one b f p s l h = rw (h.locals_there, h.own) refl

  -- The stack in the loop.
  abbrev base : ℕ → List Value → ℕ → List Value
  base b xs f = table c ∷ (table b ∷ (xs ++ (light f ∷ [])))

  replicate_more :
      (n : ℕ) (v : Value) (zs : List Value) → replicate n v ++ (v ∷ zs) ≡ v ∷ (replicate n v ++ zs)
  replicate_more zero v zs = refl
  replicate_more (suc n) v zs = ap (v ∷◌) (replicate_more n v zs)

  get_fields_lem :
      (n left b f : ℕ) (rs xs : List Value) (l : K)
      → n ≡ suc (length xs)
      → get_fields lua self n left (rs ++ base b xs f) l
        ≡ ended tt (replicate left (lua.get l c (str f)) ++ (rs ++ base b xs f)) l
  unfolding get_fields
  get_fields_lem n zero b f rs xs l e = refl
  get_fields_lem n (suc left) b f rs xs l e =
      let v = lua.get l c (str f) in
      let first : at lua (bottom 1) (rs ++ base b xs f) l ≡ ended (light f) (rs ++ base b xs f) l =
        subst (λ s. at lua (bottom 1) s l ≡ ended (light f) s l)
          (append_assoc rs (table c ∷ (table b ∷ xs)) (light f ∷ []))
          (at_bottom lua 1 (rs ++ (table c ∷ (table b ∷ xs))) (light f) [] l refl) in
      let len = length-append xs (light f ∷ []) in
      let own =
        at_bottom lua (n + 2) (str f ∷ rs) (table c) (table b ∷ (xs ++ (light f ∷ []))) l
          (omega arith) in
      rw (first, own)
        (get_fields_lem n left b f (v ∷ rs) xs l e
          ∙ ap (λ s. ended tt s l) (replicate_more left v (rs ++ base b xs f)))

  -- The addresses of further names stand above what was there.
  pushed_names :
      (fs : List ℕ) (s : List Value)
      → (xs : List Value) × (push_names lua self fs s ≡ xs ++ s) × (length xs ≡ length fs)
  pushed_names [] s = ([], refl, refl)
  pushed_names (f ∷ fs) s =
      let (xs, e, n) = pushed_names fs (light f ∷ s) in
      let len = length-append xs (light f ∷ []) in
      (xs ++ (light f ∷ []), e ∙ sym (append_assoc xs (light f ∷ []) s), omega arith)

  take-replicate :
      (n : ℕ) (v : Value) (zs : List Value) → take n (replicate n v ++ zs) ≡ replicate n v
  take-replicate zero v zs = refl
  take-replicate (suc n) v zs = ap (v ∷◌) (take-replicate n v zs)

  lbind_get_thread_local_vars_lem :
      (b f : ℕ) (fs : List ℕ) (s : List Value) (l : K)
      → HasLocals b l
      → lbind_get_thread_local_vars lua self (f ∷ fs) s l
        ≡ returned (replicate (suc (length fs)) (lua.get l c (str f)) ++ s) l
  unfolding lbind_get_thread_local_vars
  lbind_get_thread_local_vars_lem b f fs s l h =
      let (xs, e, n) = pushed_names fs (light f ∷ []) in
      let v = lua.get l c (str f) in
      let len = length-append xs (light f ∷ []) in
      let count : length (xs ++ (light f ∷ [])) ≡ suc (length fs) = omega arith in
      let loop = get_fields_lem (suc (length fs)) (suc (length fs)) b f [] xs l (omega arith) in
      rw (e, count, h.locals_there, h.own, loop)
        (ap (λ vs. returned (vs ++ s) l) (take-replicate (suc (length fs)) v (base b xs f)))

  -- What setting the variable `f` to the address `p`, and then getting `f` and further variables,
  -- gives.
  pub record IsFetched (f p : ℕ) (fs : List ℕ) (s : List Value) (l : K) : Type 0 where
    pub state : K
    pub sets : set_va_list lua self 0 ((f, ptr_arg p) ∷ []) s l ≡ returned tt state
    pub gets :
        lbind_get_thread_local_vars lua self (f ∷ fs) s state
        ≡ returned (replicate (suc (length fs)) (light p) ++ s) state

  -- For a thread with its own table of local variables, which is not the registry, and an
  -- interpreter whose tables keep what is set in them: `_lbind_set_va_list` of a variable to an
  -- address succeeds, and `lbind_get_thread_local_vars` of that variable and any further ones then
  -- pushes the address once for each of them, whatever the further ones hold.
  pub lbind_get_thread_local_vars-IsFetched :
      (is : IsInterp lua) (b f p : ℕ) (fs : List ℕ) (s : List Value) (l : K)
      → HasLocals b l
      → (lua.registry == c) ≡ false
      → IsFetched f p fs s l
  lbind_get_thread_local_vars-IsFetched is b f p fs s l h apart =
      let l1 = lua.set l c (str f) (light p) in
      let same_c : (c == c) ≡ true = ground arith in
      let same_f : (f == f) ≡ true = ground arith in
      let value : lua.get l1 c (str f) ≡ light p =
        is.get-set l c (str f) (light p) c (str f) ∙ rw (same_c, same_f) refl in
      let has : HasLocals b l1 = record {
        locals_there = is.get-set l c (str f) (light p) lua.registry _ ∙ rw apart h.locals_there;
        own = is.get-set l c (str f) (light p) b (thread self) ∙ not_there lua (b == c) _ _ ∙ h.own;
      } in
      record {
        state = l1;
        sets = set_one b f p s l h;
        gets =
            lbind_get_thread_local_vars_lem b f fs s l1 has
            ∙ ap (λ v. returned (replicate (suc (length fs)) v ++ s) l1) value;
      }
