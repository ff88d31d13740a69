-- ===== src/Stores/Nonces.antt =====
-- src/hashcash/used-nonce-store.ts: the bounded store of solved proof-of-work nonces.
-- `now` is the clock in seconds, `Math.floor(Date.now() / 1000)`.
pub mod Replay
use zt_access_gateway.Common.{
  ℕ, String, Bool, true, false, none, some, List, [], ◌∷◌, leb, if◌then◌else◌, length,
}
use zt_access_gateway.JsMap.{get, set, delete}

pub record UsedNonceStore : Type 0 where
  pub store : List (String × ℕ)
  pub capacity : ℕ

-- An entry past its expiry is deleted by the read.
unfoldable pub has : String → ℕ → UsedNonceStore → Bool × UsedNonceStore
has nonce now s = elim (get nonce s.store) [
  | none ↦ (false, s)
  | some exp ↦ if leb exp now then (false, record s { store = delete nonce s.store }) else (true, s)
]

-- The oldest entry goes when the store is full.
unfoldable pub evict_oldest : List (String × ℕ) → List (String × ℕ)
evict_oldest [] = []
evict_oldest ((k, v) ∷ m) = delete k ((k, v) ∷ m)

-- The first statement of `add`: the entries that are left when a full store has lost its oldest.
unfoldable pub make_room : UsedNonceStore → List (String × ℕ)
unfolding evict_oldest
make_room s = if leb s.capacity (length s.store) then evict_oldest s.store else s.store

unfoldable pub add : String → ℕ → UsedNonceStore → UsedNonceStore
add nonce expires_at s = record s { store = set nonce expires_at (make_room s) }

unfoldable pub size : UsedNonceStore → ℕ
size s = length s.store

unfoldable pub clear : UsedNonceStore → UsedNonceStore
clear s = record s { store = [] }
