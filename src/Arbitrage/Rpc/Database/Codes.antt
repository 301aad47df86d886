-- ===== src/Arbitrage/Rpc/Database/Codes.antt =====
-- examples/toy-arbitrage/src/rpc.rs: the cache of codes behind `code_by_hash`.
use driftbrake.Base.{
  ℕ, ◌≡◌, refl, ap, ◌∙◌, sym, List, [], ◌∷◌, Option, none, some, inl, inr, value, panic, All,
  Bool-cases,
}
use driftbrake.Base.Text.{same_text, same_text-eq, same_text_self}
use driftbrake.Arbitrage.Hex.{RpcError, Fallible, ok}
use driftbrake.Arbitrage.Json.{Json}
use driftbrake.Arbitrage.Rpc.{Network, or_missing}
use driftbrake.Arbitrage.Rpc.Database.{
  Revm, RpcDbFactory, RpcDb, AccountInfo, insert, find, fresh_db, fetch_account, build_account,
  basic, code_by_hash,
}

module _ ⦃js : Json⦄ (rv : Revm) where
  open rv use {Bytecode, hash_slow}

  -- Each code of the cache stands under its hash.
  abbrev IsKeyed : List (List ℕ × Bytecode) → Type 0
  IsKeyed cache = All (λ entry. hash_slow entry.1 ≡ entry.0) cache

  insert-IsKeyed :
      (code : Bytecode) (cache : List (List ℕ × Bytecode))
      → IsKeyed cache
      → IsKeyed (insert rv (hash_slow code) code cache)
  insert-IsKeyed code [] h = (refl, tt)
  insert-IsKeyed code ((k, c) ∷ cache) h = elim (Bool-cases (same_text k (hash_slow code))) [
    | inl same ↦ rw same (sym (same_text-eq k (hash_slow code) same), h.1)
    | inr differ ↦ rw differ (h.0, insert-IsKeyed code cache h.1)
  ]

  find-insert_self :
      (key : List ℕ) (code : Bytecode) (cache : List (List ℕ × Bytecode))
      → find rv key (insert rv key code cache) ≡ some code
  find-insert_self key code [] = rw (same_text_self key) refl
  find-insert_self key code ((k, c) ∷ cache) = elim (Bool-cases (same_text k key)) [
    | inl same ↦ rw (same, same) refl
    | inr differ ↦ rw (differ, differ) (find-insert_self key code cache)
  ]

  some_inj : {a b : Bytecode} → some a ≡ some b → a ≡ b
  some_inj e = cc

  find-IsKeyed :
      (key : List ℕ) (code : Bytecode) (cache : List (List ℕ × Bytecode))
      → IsKeyed cache
      → find rv key cache ≡ some code
      → hash_slow code ≡ key
  find-IsKeyed key code [] h e = cc
  find-IsKeyed key code ((k, c) ∷ cache) h e = elim (Bool-cases (same_text k key)) [
    | inl same ↦
        let found : some c ≡ some code = rw same at e in
        sym (ap hash_slow (some_inj found)) ∙ h.0 ∙ same_text-eq k key same
    | inr differ ↦ find-IsKeyed key code cache h.1 (rw differ at e)
  ]

  -- The databases that calls of `basic` make of a fresh one, by a node that may reply differently each
  -- time.
  pub data Reachable (factory : RpcDbFactory) : RpcDb rv → Type 0 where
    fresh : Reachable factory (fresh_db rv factory)
    after_basic :
        (db : RpcDb rv) (address : List ℕ)
        → Reachable factory db
        → Reachable factory (basic rv db address).1
    node_changed :
        (db : RpcDb rv) (network : Network)
        → Reachable factory db
        → Reachable factory (record db { client = record (db.client) { network = network } })

  build_account-IsKeyed :
      (db : RpcDb rv) (reply : Fallible RpcError (ℕ × ℕ × List ℕ))
      → IsKeyed db.code_cache
      → IsKeyed (RpcDb.code_cache (build_account rv db reply).1)
  build_account-IsKeyed db panic h = h
  build_account-IsKeyed db (value (inl e)) h = h
  build_account-IsKeyed db (value (inr (balance, nonce, []))) h = h
  build_account-IsKeyed db (value (inr (balance, nonce, b ∷ bs))) h =
      insert-IsKeyed (Revm.new_raw rv (b ∷ bs)) db.code_cache h

  Reachable-IsKeyed :
      (factory : RpcDbFactory) (db : RpcDb rv) → Reachable factory db → IsKeyed db.code_cache
  unfolding fresh_db basic
  Reachable-IsKeyed factory db fresh = tt
  Reachable-IsKeyed factory db (after_basic db' address before) =
      build_account-IsKeyed db' (fetch_account rv db' address)
        (Reachable-IsKeyed factory db' before)
  Reachable-IsKeyed factory db (node_changed db' network before) =
      Reachable-IsKeyed factory db' before

  -- In a database that any calls of `basic` have made of a fresh one, whatever the node replies to each, a
  -- code that `code_by_hash` returns has the hash that was asked for.
  pub code_by_hash-Reachable :
      (factory : RpcDbFactory) (db : RpcDb rv) (code_hash : List ℕ) (code : Bytecode)
      → Reachable factory db
      → code_by_hash rv db code_hash ≡ ok code
      → hash_slow code ≡ code_hash
  unfolding code_by_hash
  code_by_hash-Reachable factory db code_hash code reached h =
      find-IsKeyed code_hash code db.code_cache (Reachable-IsKeyed factory db reached)
        (found _ (find rv code_hash db.code_cache) h)
    where
      found :
          (message : List ℕ) (o : Option Bytecode) {c : Bytecode}
          → or_missing message o ≡ ok c
          → o ≡ some c
      found message none e = cc
      found message (some c) e = cc

  IsStored : RpcDb rv → AccountInfo rv → Bytecode → Type 0
  IsStored db info code =
      (info.code_hash ≡ hash_slow code) × (code_by_hash rv db info.code_hash ≡ ok code)

  account_inj : {a b : AccountInfo rv} → ok {E = RpcError} (some a) ≡ ok (some b) → a ≡ b
  account_inj h = cc

  stored :
      (db : RpcDb rv) (reply : Fallible RpcError (ℕ × ℕ × List ℕ)) (info : AccountInfo rv)
      (code : Bytecode)
      → (build_account rv db reply).0 ≡ ok (some info)
      → info.code ≡ some code
      → IsStored (build_account rv db reply).1 info code
  unfolding IsStored code_by_hash
  stored db panic info code h e = cc
  stored db (value (inl error)) info code h e = cc
  stored db (value (inr (balance, nonce, []))) info code h e =
      let none_is : none ≡ some code = ap (λ (a : AccountInfo rv). a.code) (account_inj h) ∙ e in cc
  stored db (value (inr (balance, nonce, b ∷ bs))) info code h e =
      let raw = Revm.new_raw rv (b ∷ bs) in
      let same : raw ≡ code = some_inj (ap (λ (a : AccountInfo rv). a.code) (account_inj h) ∙ e) in
      let hash : hash_slow raw ≡ info.code_hash =
        ap (λ (a : AccountInfo rv). a.code_hash) (account_inj h) in
      (
        sym hash ∙ ap hash_slow same,
        rw (sym hash, find-insert_self (hash_slow raw) raw db.code_cache, same) refl,
      )

  -- An account that `basic` returns with a code has that code's hash, and the database that it leaves
  -- finds the code by it.
  pub code_by_hash-basic :
      (db : RpcDb rv) (address : List ℕ) (info : AccountInfo rv) (code : Bytecode)
      → (basic rv db address).0 ≡ ok (some info)
      → info.code ≡ some code
      → (info.code_hash ≡ hash_slow code)
        × (code_by_hash rv (basic rv db address).1 info.code_hash ≡ ok code)
  unfolding basic IsStored
  code_by_hash-basic db address info code h e =
      stored db (fetch_account rv db address) info code h e
