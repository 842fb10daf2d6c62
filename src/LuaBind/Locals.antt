-- ===== src/LuaBind/Locals.antt =====
-- c/src/lua_bind.c: the local variables of a Lua thread. The arguments behind `n` are a list.
pub mod Fetched
use artorias.Prelude.{
  ℕ, zero, suc, ◌+◌, ◌-◌, ◌*◌, ◌/◌, ◌≡◌, refl, sym, ap, subst, ◌∙◌, true, false, List, [], ◌∷◌,
  ◌++◌, ◌==◌, arith, if◌then◌else◌, length, take, replicate, append_assoc, length-append,
}
use artorias.Lua.{
  Value, nil, integer, str, light, table, thread, function, Interp, IsInterp, Index, bottom, top,
  registry_index, Outcome, ended, raised, bad_index, Act, ◌>>=◌, ◌>>◌, pure, push, get_top, at,
  push_value, get_table, set_table, check_metatable,
}
use artorias.Lua.Stack.{at_bottom}
use artorias.LuaBind.Threads.{
  Called, returned, failed, undefined, status, to_integer, lrk_thread_local_var_table,
}

-- `LTTYPE_REGISTRY`
abbrev lttype_registry : ℕ
lttype_registry = 1

-- `LTYPE_INT`, `LTYPE_PTR` and `LTYPE_STACK` with their arguments; an index of the stack is not 0.
pub data Arg : Type 0 where
  int_arg ptr_arg : ℕ → Arg
  stack_arg : Index → Arg

-- The text at an address.
abbrev pub text_of : Value → Value
text_of (light f) = str f
text_of _ = nil

abbrev from_bottom : ℕ → Index → Index
from_bottom sn (top i) = bottom (sn + 1 - i)
from_bottom sn i = i

module _ {K : Type 0} (lua : Interp K) (self : ℕ) where
  -- The table of the thread `self`, on the top.
  abbrev push_locals : Act K (Unit {0})
  push_locals = do
    check_metatable lua lrk_thread_local_var_table
    push (thread self)
    get_table lua (top 2)

  -- The loop of `lcf_get_thread_local_vars`, with the passes that are left.
  pub get_fields : ℕ → ℕ → Act K (Unit {0})
  get_fields n zero = pure tt
  get_fields n (suc left) = do
    v ← at lua (bottom 1)
    push (text_of v)
    get_table lua (bottom (n + 2))
    get_fields n left

  lcf_get_thread_local_vars : Act K ℕ
  unfolding get_fields
  lcf_get_thread_local_vars = do n ← get_top; push_locals; get_fields n n; pure n

  abbrev pub push_names : List ℕ → List Value → List Value
  push_names [] s = s
  push_names (f ∷ fs) s = push_names fs (light f ∷ s)

  -- What stands on the stack `s` afterwards: the results, the last one on the top.
  abbrev pub results : ℕ → List Value → Outcome K ℕ → Called (List Value) K
  results n s (ended m s' l) = returned (take n s' ++ s) l
  results n s (raised l) = failed l
  results n s bad_index = undefined

  pub lbind_get_thread_local_vars : List ℕ → List Value → K → Called (List Value) K
  unfolding lcf_get_thread_local_vars
  lbind_get_thread_local_vars names s l =
      results (length names) s (lcf_get_thread_local_vars (push_names names []) l)

  -- The loop of `lcf_set_va_list`, from the pass `i` on.
  set_fields : Index → ℕ → ℕ → Act K (Unit {0})
  set_fields tidx i zero = pure tt
  set_fields tidx i (suc left) = do
    f ← at lua (bottom (i * 2))
    push (text_of f)
    push_value lua (bottom (i * 2 + 1))
    set_table lua tidx
    set_fields tidx (i + 1) left

  lcf_set_va_list : Act K (Unit {0})
  unfolding set_fields
  lcf_set_va_list = do
    n ← get_top
    ttype ← at lua (bottom 1)
    if to_integer ttype == lttype_registry
        then set_fields registry_index 1 (n / 2)
        else push_locals >> set_fields (bottom (n + 2)) 1 (n / 2)

  abbrev push_arg : ℕ → Arg → Act K (Unit {0})
  push_arg sn (int_arg n) = push (integer n)
  push_arg sn (ptr_arg p) = push (light p)
  push_arg sn (stack_arg i) = push_value lua (from_bottom sn i)

  push_args : ℕ → List (ℕ × Arg) → Act K (Unit {0})
  push_args sn [] = pure tt
  push_args sn ((f, a) ∷ fs) = push (light f) >> push_arg sn a >> push_args sn fs

  -- `lua_pcall` gives the function the values on the top.
  abbrev call_top : ℕ → Outcome K (Unit {0}) → Called (Unit {0}) K
  call_top n (ended a s l) = status (lcf_set_va_list (take n s) l)
  call_top n (raised l) = failed l
  call_top n bad_index = undefined

  -- `_lbind_set_va_list` on a stack; 0 stands for `lcf_set_va_list`.
  unfoldable pub set_va_list : ℕ → List (ℕ × Arg) → List Value → K → Called (Unit {0}) K
  unfolding lcf_set_va_list push_args
  set_va_list ttype fields s l =
      call_top (2 * length fields + 1)
        (push_args (length s) fields (integer ttype ∷ function 0 ∷ s) l)
