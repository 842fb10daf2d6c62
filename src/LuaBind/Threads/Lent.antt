-- ===== src/LuaBind/Threads/Lent.antt =====
-- c/src/lua_bind.c: a Lua thread that comes into its tables, and goes.
use artorias.Prelude.{
  ℕ, ◌≡◌, refl, ap, ◌∙◌, ◌≢◌, Bool, true, false, Option, some, ◌&&◌, ◌==◌, arith, if◌then◌else◌,
  Bool-cases, inl, inr,
}
use artorias.Lua.{Value, nil, integer, str, table, thread, same, Interp, IsInterp}
use artorias.LuaBind.Threads.{
  Called, returned, lrk_thread_local_var_table, lrk_tid_thread_table, lbind_ref_tid_lthread,
  lbind_unref_tid_lthread,
}

module _ {K : Type 0} (lua : Interp K) where
  -- The two tables `a` and `b` are in the registry.
  pub record IsReady (a b : ℕ) (l : K) : Type 0 where
    pub threads_there : lua.get l lua.registry (str lrk_tid_thread_table) ≡ table a
    pub locals_there : lua.get l lua.registry (str lrk_thread_local_var_table) ≡ table b
    pub apart : (a == b) ≡ false

  -- The thread `tid` has a Lua thread of its own, with no local variables; the other entries of both
  -- tables are as before.
  pub record IsReferenced (a b tid : ℕ) (l : K) (r : Called (Option ℕ) K) : Type 0 where
    pub found : ℕ
    pub state : K
    pub returns : r ≡ returned (some found) state
    pub threads_after :
        (k : Value)
        → lua.get state a k ≡ (if same k (integer tid) then thread found else lua.get l a k)
    pub locals : ℕ
    pub locals_after :
        (k : Value)
        → lua.get state b k ≡ (if same k (thread found) then table locals else lua.get l b k)
    pub no_locals : (k : Value) → lua.get state locals k ≡ nil
    pub ready : IsReady a b state

  pub not_there : {A : Type 0} (x : Bool) (u v : A) → (if x && false then u else v) ≡ v
  not_there true u v = refl
  not_there false u v = refl

  once :
      {A : Type 0} (x : Bool) (u v w : A)
      → (if x then u else if x then v else w) ≡ (if x then u else w)
  once true u v w = refl
  once false u v w = refl

  -- A new table is none that a table holds.
  apart :
      (l : K) (c b t : ℕ) (k : Value)
      → ((t' : ℕ) (k' : Value) → lua.get l t' k' ≢ table c)
      → lua.get l t k ≡ table b
      → (c == b) ≡ false
  apart l c b t k new here = elim (Bool-cases (c == b)) [
    | inl e ↦ let q : b ≡ c = ground arith in absurd (new t k (here ∙ ap table q))
    | inr e ↦ e
  ]

  lbind_ref_tid_lthread-IsReferenced :
      (is : IsInterp lua) (a b tid : ℕ) (l : K)
      → IsReady a b l
      → IsReferenced a b tid l (lbind_ref_tid_lthread lua tid l)
  unfolding lbind_ref_tid_lthread
  lbind_ref_tid_lthread-IsReferenced is a b tid l r =
      let (t, l1) = lua.new_thread l in
      let l2 = lua.set l1 a (integer tid) (thread t) in
      let (c, l3) = lua.new_table l2 in
      let same_a : (a == a) ≡ true = ground arith in
      let same_b : (b == b) ≡ true = ground arith in
      let threads_2 : lua.get l2 lua.registry (str lrk_tid_thread_table) ≡ table a =
        is.get-set l1 a (integer tid) (thread t) lua.registry (str lrk_tid_thread_table)
        ∙ not_there (lua.registry == a) _ _
        ∙ is.thread_keeps l lua.registry (str lrk_tid_thread_table)
        ∙ r.threads_there in
      let locals_2 : lua.get l2 lua.registry (str lrk_thread_local_var_table) ≡ table b =
        is.get-set l1 a (integer tid) (thread t) lua.registry (str lrk_thread_local_var_table)
        ∙ not_there (lua.registry == a) _ _
        ∙ is.thread_keeps l lua.registry (str lrk_thread_local_var_table)
        ∙ r.locals_there in
      let c_b : (c == b) ≡ false = apart l2 c b lua.registry _ (is.table_apart l2) locals_2 in
      let b_a : (b == a) ≡ false = let h = r.apart in ground arith in
      record {
        found = t;
        state = lua.set l3 b (thread t) (table c);
        returns = rw (r.threads_there, r.locals_there) refl;
        threads_after = λ k.
            is.get-set l3 b (thread t) (table c) a k
            ∙ rw
                (
                  r.apart,
                  is.table_keeps l2 a k,
                  is.get-set l1 a (integer tid) (thread t) a k,
                  same_a,
                  is.thread_keeps l a k,
                )
                refl;
        locals = c;
        locals_after = λ k.
            is.get-set l3 b (thread t) (table c) b k
            ∙ rw
                (
                  same_b,
                  is.table_keeps l2 b k,
                  is.get-set l1 a (integer tid) (thread t) b k,
                  b_a,
                  is.thread_keeps l b k,
                )
                refl;
        no_locals = λ k.
            is.get-set l3 b (thread t) (table c) c k
            ∙ rw (c_b, is.table_keeps l2 c k) (is.table_empty l2 k);
        ready = record {
          threads_there =
              is.get-set l3 b (thread t) (table c) lua.registry (str lrk_tid_thread_table)
              ∙ not_there (lua.registry == b) _ _
              ∙ is.table_keeps l2 lua.registry (str lrk_tid_thread_table)
              ∙ threads_2;
          locals_there =
              is.get-set l3 b (thread t) (table c) lua.registry (str lrk_thread_local_var_table)
              ∙ not_there (lua.registry == b) _ _
              ∙ is.table_keeps l2 lua.registry (str lrk_thread_local_var_table)
              ∙ locals_2;
          apart = r.apart;
        };
      }

  -- The entry of `tid` is taken out, and the others are as before.
  pub record IsForgotten (a tid : ℕ) (l : K) (r : Called (Unit {0}) K) : Type 0 where
    pub state : K
    pub returns : r ≡ returned tt state
    pub threads_after :
        (k : Value) → lua.get state a k ≡ (if same k (integer tid) then nil else lua.get l a k)

  lbind_unref_tid_lthread-IsForgotten :
      (is : IsInterp lua) (a b tid : ℕ) (l : K)
      → IsReady a b l
      → IsForgotten a tid l (lbind_unref_tid_lthread lua tid l)
  unfolding lbind_unref_tid_lthread
  lbind_unref_tid_lthread-IsForgotten is a b tid l r =
      let same_a : (a == a) ≡ true = ground arith in
      record {
        state = lua.set l a (integer tid) nil;
        returns = rw r.threads_there refl;
        threads_after = λ k. is.get-set l a (integer tid) nil a k ∙ rw same_a refl;
      }

  -- What a thread that comes and goes leaves in the table of threads.
  pub record IsLent (a b tid : ℕ) (l : K) : Type 0 where
    pub comes : IsReferenced a b tid l (lbind_ref_tid_lthread lua tid l)
    pub goes : IsForgotten a tid l (lbind_unref_tid_lthread lua tid comes.state)

  -- In a state of Lua with two different tables for threads and for local variables, for an
  -- interpreter whose tables keep what is set in them and whose new tables are empty and apart from
  -- those in use: `lbind_ref_tid_lthread` of a number returns a thread, which is then the entry of
  -- that number, with an empty table of local variables, and every other entry of both tables is as
  -- before; `lbind_unref_tid_lthread` of the same number then returns `LUA_OK`, and takes that
  -- entry away and no other.
  pub lbind_unref_tid_lthread-IsLent :
      (is : IsInterp lua) (a b tid : ℕ) (l : K) → IsReady a b l → IsLent a b tid l
  lbind_unref_tid_lthread-IsLent is a b tid l r =
      let m = lbind_ref_tid_lthread-IsReferenced is a b tid l r in
      let f = lbind_unref_tid_lthread-IsForgotten is a b tid m.state m.ready in
      record {
        comes = m;
        goes = record {
          state = f.state;
          returns = f.returns;
          threads_after =
              λ k. f.threads_after k ∙ rw (m.threads_after k) (once (same k (integer tid)) _ _ _);
        };
      }
