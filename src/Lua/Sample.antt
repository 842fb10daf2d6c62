-- ===== src/Lua/Sample.antt =====
-- An interpreter to run the code on: its tables are a list of entries, the last one first, and a new
-- table has the number behind all that stand in it.
use artorias.Prelude.{
  ℕ, suc, ◌≤◌, ◌≡◌, ◌≢◌, refl, false, List, [], ◌∷◌, ◌&&◌, ◌==◌, arith, inl, inr, if◌then◌else◌,
  Bool-cases, max,
}
use artorias.Lua.{Value, nil, integer, str, table, thread, function, same, Interp, IsInterp}

pub record Entry : Type 0 where
  pub at : ℕ
  pub key : Value
  pub value : Value

abbrev find : List Entry → ℕ → Value → Value
find [] t k = nil
find (e ∷ es) t k = let rest = find es t k in if t == e.at && same k e.key then e.value else rest

abbrev number : Value → ℕ
number (table t) = t
number _ = 0

abbrev largest : List Entry → ℕ
largest [] = 9
largest (e ∷ es) = max (max e.at (number e.value)) (largest es)

-- The registry is the table 1, and the globals are the table 2; a file is its name.
abbrev pub lua : Interp (List Entry)
lua = record {
  registry = 1;
  globals = 2;
  get = find;
  set = λ l t k v. record { at = t; key = k; value = v } ∷ l;
  new_table = λ l. (suc (largest l), l);
  new_thread = λ l. (5, l);
  load_file = λ l name. (function name, l);
}

find_new : (l : List Entry) (t : ℕ) (k : Value) → suc (largest l) ≤ t → find l t k ≡ nil
find_new [] t k h = refl
find_new (e ∷ es) t k h =
    let other : (t == e.at) ≡ false = ground arith in rw other (find_new es t k (omega arith))

number-find : (l : List Entry) (t : ℕ) (k : Value) → number (find l t k) ≤ largest l
number-find [] t k = omega arith
number-find (e ∷ es) t k = elim (Bool-cases (t == e.at && same k e.key)) [
  | inl here ↦ rw here (omega arith)
  | inr there ↦ let h = number-find es t k in rw there (omega arith)
]

pub lua-IsInterp : IsInterp lua
lua-IsInterp = record {
  get-set = λ l t k v t' k'. refl;
  table_keeps = λ l t k. refl;
  table_empty = λ l k. find_new l (suc (largest l)) k (omega arith);
  table_apart = λ l t k e. apart l t k e;
  thread_keeps = λ l t k. refl;
  load_keeps = λ l name t k. refl;
}
  where
    apart : (l : List Entry) (t : ℕ) (k : Value) → find l t k ≢ table (suc (largest l))
    apart l t k e =
        let h = number-find l t k in
        let bad : suc (largest l) ≤ largest l = rw e at h in absurd (omega arith)

-- The tables of `lcf_init_state`, and a configuration.
abbrev pub begin : List Entry
begin =
    record { at = 1; key = str 4; value = table 6 }
    ∷ record { at = 1; key = str 2; value = table 7 }
    ∷ record { at = 1; key = str 3; value = table 8 }
    ∷ record { at = 2; key = str 100; value = table 9 }
    ∷ record { at = 9; key = str 11; value = integer 8080 }
    ∷ record { at = 7; key = thread 5; value = table 3 }
    ∷ []
