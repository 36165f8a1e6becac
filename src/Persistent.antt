-- ===== src/Persistent.antt =====
-- factorengine/persistent_cache.go: a cache in front of a store of snapshots, with expiry. A `time.Time` is the
-- number of nanoseconds since the zero time.
use risk_engine.Prelude.{
  ℕ, Bool, false, not, ◌&&◌, Option, none, some, List, [], Str, ◌≡◌, if◌then◌else◌, str_eq,
}
use risk_engine.Prelude.Int.{ℤ, pos, ◌+ℤ◌, ltb_ℤ, leb_ℤ, eqb_ℤ}
use risk_engine.Outcome.{ok, err, panic}
use risk_engine.Runtime.{Floats}
use risk_engine.Bytecode.{BytecodeProgram}
use risk_engine.Compiler.{CompiledExpr}
use risk_engine.Snapshot.{CompiledExprSnapshot, snapshot_compiled_expr, restore_compiled_expr}
use risk_engine.GoMap.{find, put, remove, string_keys}
use risk_engine.Cache.{bump}

pub record PersistedProgramEntry (D : Type 0) : Type 0 where
  pub key : Str
  pub fingerprint : Str
  pub created_at : ℤ
  pub expires_at : ℤ
  pub compiled : CompiledExprSnapshot D

-- A value or an error of the store.
pub data StoreResult (A : Type 0) : Type 0 where
  done : A → StoreResult A
  failed : StoreResult A

-- `PersistentProgramStore` over states, and what a client relies on: `Load` finds under a key what `Save` was
-- given for it.
pub record PersistentProgramStore (D : Type 0) : Type 1 where
  pub State : Type 0
  pub load : Str → State → StoreResult (Option (PersistedProgramEntry D)) × State
  pub save : PersistedProgramEntry D → State → StoreResult (Unit {0}) × State
  pub delete : Str → State → StoreResult (Unit {0}) × State
  pub Holds : (Str → PersistedProgramEntry D → Type 0) → State → Type 0
  pub new : State
  pub new-Holds : (P : Str → PersistedProgramEntry D → Type 0) → Holds P new
  pub load-Holds :
      (P : Str → PersistedProgramEntry D → Type 0) (k : Str) (s : State)
      → Holds P s
      → Holds P (load k s).1
  pub load_found :
      (P : Str → PersistedProgramEntry D → Type 0) (k : Str) (s : State)
      (e : PersistedProgramEntry D)
      → Holds P s
      → (load k s).0 ≡ done (some e)
      → P k e
  pub save-Holds :
      (P : Str → PersistedProgramEntry D → Type 0) (e : PersistedProgramEntry D) (s : State)
      → Holds P s
      → P e.key e
      → Holds P (save e s).1
  pub delete-Holds :
      (P : Str → PersistedProgramEntry D → Type 0) (k : Str) (s : State)
      → Holds P s
      → Holds P (delete k s).1

-- The local cache, a `ProgramCache`: a key that is not found has no value, a value that is set takes the place of the key's old one. `delete` is there
-- when it is an `InvalidatingProgramCache`, and leaves the key without a value.
pub record LocalCache (V : Type 0) : Type 1 where
  pub State : Type 0
  pub get : Str → State → Option V × State
  pub set : Str → V → State → State
  pub delete : Option (Str → State → State)
  pub Holds : (Str → V → Type 0) → State → Type 0
  pub new : State
  pub new-Holds : (P : Str → V → Type 0) → Holds P new
  pub get-Holds : (P : Str → V → Type 0) (k : Str) (s : State) → Holds P s → Holds P (get k s).1
  pub get_found :
      (P : Str → V → Type 0) (k : Str) (s : State) (v : V)
      → Holds P s
      → (get k s).0 ≡ some v
      → P k v
  pub get_missed :
      (P Q : Str → V → Type 0) (k : Str) (s : State)
      → Holds P s
      → (get k s).0 ≡ none
      → ((j : Str) (w : V) → str_eq k j ≡ false → P j w → Q j w)
      → Holds Q (get k s).1
  pub set-Holds :
      (P Q : Str → V → Type 0) (k : Str) (v : V) (s : State)
      → Holds P s
      → Q k v
      → ((j : Str) (w : V) → str_eq k j ≡ false → P j w → Q j w)
      → Holds Q (set k v s)
  pub delete-Holds :
      (delete_key : Str → State → State)
      → delete ≡ some delete_key
      → (P Q : Str → V → Type 0) (k : Str) (s : State) → Holds P s
      → ((j : Str) (w : V) → str_eq k j ≡ false → P j w → Q j w)
      → Holds Q (delete_key k s)

-- `invalidations` is a counter of 64 bits.
pub record PersistentProgramCache (S L : Type 0) : Type 0 where
  pub stored : Option S
  pub local : L
  pub ttl : ℤ
  pub local_expiry : List (Str × ℤ)
  pub invalidations : ℕ

-- 24 hours, for a time to live that is not positive.
abbrev pub clamp_ttl : ℤ → ℤ
clamp_ttl ttl = if leb_ℤ ttl (pos 0) then pos 86400000000000 else ttl

abbrev pub new_persistent_program_cache :
    {S L : Type 0} → Option S → L → ℤ → PersistentProgramCache S L
new_persistent_program_cache stored local ttl = record {
  stored = stored;
  local = local;
  ttl = clamp_ttl ttl;
  local_expiry = [];
  invalidations = 0;
}

-- `!t.IsZero() && !t.After(now)`.
unfoldable pub has_expired : ℤ → ℤ → Bool
has_expired now t = not (eqb_ℤ t (pos 0)) && not (ltb_ℤ now t)

unfoldable pub local_entry_expired : ℤ → Str → List (Str × ℤ) → Bool
unfolding has_expired find
local_entry_expired now key expiry = elim (find key expiry) [
  | none ↦ false
  | some t ↦ has_expired now t
]

-- `now` is what the clock says in a call. Neither a snapshot nor its restoration panics.
module _ {D : Type 0} ⦃fl : Floats D⦄ (fingerprint : BytecodeProgram D → Str)
    (store : PersistentProgramStore D) (local : LocalCache (CompiledExpr D)) where
  abbrev pub Cache : Type 0
  Cache = PersistentProgramCache store.State local.State

  unfoldable pub delete_local : Str → Cache → Cache
  unfolding remove
  delete_local key c = record c {
    local = elim local.delete [ none ↦ c.local | some delete_key ↦ delete_key key c.local ];
    local_expiry = remove key c.local_expiry;
  }

  -- An entry that was loaded, from a store in the state `s`.
  unfoldable pub use_entry :
      ℤ → Str → PersistedProgramEntry D → store.State → Cache → Option (CompiledExpr D) × Cache
  unfolding has_expired restore_compiled_expr put
  use_entry now key entry s c =
      let dropped : Cache = record c { stored = some (store.delete key s).1 } in
      if has_expired now entry.expires_at
      then (none, dropped)
      else elim (restore_compiled_expr entry.compiled) [
        | ok expr ↦ (
          some expr,
          record c {
            stored = some s;
            local = local.set key expr c.local;
            local_expiry = put key entry.expires_at c.local_expiry;
          },
        )
        | err e ↦ (none, dropped)
        | panic ↦ (none, dropped)
      ]

  -- `Get` behind the local cache.
  unfoldable pub get_stored : ℤ → Str → Cache → Option (CompiledExpr D) × Cache
  unfolding use_entry
  get_stored now key c = elim c.stored [
    | none ↦ (none, c)
    | some s ↦
        let (loaded, s') = store.load key s in
        elim loaded [
          | done (some entry) ↦ use_entry now key entry s' c
          | done none ↦ (none, record c { stored = some s' })
          | failed ↦ (none, record c { stored = some s' })
        ]
  ]

  unfoldable pub get : ℤ → Str → Cache → Option (CompiledExpr D) × Cache
  unfolding local_entry_expired delete_local get_stored
  get now key c =
      let (found, l) = local.get key c.local in
      let looked : Cache = record c { local = l } in
      elim found [
        | none ↦ get_stored now key looked
        | some expr ↦
            if local_entry_expired now key c.local_expiry
            then get_stored now key (delete_local key looked)
            else (some expr, looked)
      ]

  -- `Set` behind the local cache; an error of the store is passed over.
  unfoldable pub save_entry : ℤ → Str → CompiledExpr D → store.State → Cache → Cache
  unfolding snapshot_compiled_expr
  save_entry now key expr s c = elim (snapshot_compiled_expr expr) [
    | ok snapshot ↦ record c {
      stored =
          some
            (store.save
              (record {
                key = key;
                fingerprint = fingerprint expr.bytecode;
                created_at = now;
                expires_at = now +ℤ c.ttl;
                compiled = snapshot;
              })
              s).1;
    }
    | err e ↦ c
    | panic ↦ c
  ]

  unfoldable pub set : ℤ → Str → CompiledExpr D → Cache → Cache
  unfolding save_entry put
  set now key expr c =
      let kept : Cache = record c {
        local = local.set key expr c.local;
        local_expiry = put key (now +ℤ c.ttl) c.local_expiry;
      } in
      elim c.stored [ none ↦ kept | some s ↦ save_entry now key expr s kept ]

  unfoldable pub invalidate : Str → Cache → StoreResult (Unit {0}) × Cache
  unfolding delete_local
  invalidate key c =
      let gone : Cache = delete_local key (record c { invalidations = bump c.invalidations }) in
      elim c.stored [
        | none ↦ (done tt, gone)
        | some s ↦ let (o, s') = store.delete key s in (o, record gone { stored = some s' })
      ]
