-- ===== src/Wallet/Wallets.antt =====
-- Wallets of wallet/wallets.go: the key store, and what it sends. Transfer and GetBalance are in
-- Wallet/Transfer.antt. The state of a dialled connection is not modelled: an address that cannot
-- be reached is skipped.
pub mod Store
pub mod Watched
use echain.Base.{
  ℕ, zero, suc, Bytes, List, [], ◌∷◌, ◌++◌, map, Option, none, some, ◌=ᵇ◌, ◌≡◌, if◌then◌else◌,
}
use echain.Base.GoMap
use echain.Base.GoMap.{GoMap, find, find_or}
use echain.Types.{TxOutputs, Transaction}
use echain.Platform.{Platform}
use echain.Network.Messages.{NodeInfo, spv, newtxn_msg, getutxo_msg, newaddr_msg}
use echain.Network.Wire.{Wire, Sent}
use echain.Wallet.Address.{Wallet, address}

pub record Wallets : Type 0 where
  pub connected_nodes : List NodeInfo
  pub wallets : GoMap Wallet

abbrev pub zero_wallet : Wallet
zero_wallet = record { private_key = 0; public_key = [] }

-- encoding/json at a map of wallets. Unmarshal leaves the curve of a key out, which LoadWallets
-- sets; Marshal writes the keys of a map in sorted order.
pub record Json : Type 0 where
  pub marshal : GoMap Wallet → Bytes
  pub unmarshal : Bytes → GoMap Wallet
  pub find-unmarshal :
      (wallets : GoMap Wallet) (k : Bytes) → find (unmarshal (marshal wallets)) k ≡ find wallets k

unfoldable pub new_wallets : Wallets
new_wallets = record { connected_nodes = []; wallets = [] }

unfoldable pub connect_node : Wallets → Bytes → Bytes → Wallets
connect_node ws node_type node_address = record ws {
  connected_nodes =
      ws.connected_nodes ++ record { node_type = node_type; address = node_address } ∷ [];
}

-- A missing key is the zero wallet.
unfoldable pub get_wallet : Wallets → Bytes → Wallet
get_wallet ws wallet_address = find_or zero_wallet ws.wallets wallet_address

unfoldable pub get_addresses : Wallets → List Bytes
get_addresses ws = map (λ entry. entry.0) ws.wallets

-- The loops over the connected nodes, whose goroutines run as they are started.
unfoldable pub send_to_spv_nodes : List NodeInfo → Bytes → Bytes → List Sent
send_to_spv_nodes [] msg_type payload = []
send_to_spv_nodes (n ∷ ns) msg_type payload =
    if n.node_type =ᵇ spv
    then record { to_address = n.address; msg_type = msg_type; payload = payload }
      ∷ send_to_spv_nodes ns msg_type payload
    else send_to_spv_nodes ns msg_type payload

module _ ⦃platform : Platform⦄ where
  -- `new_wallet` is what createWallet gives.
  unfoldable pub add_new_wallet : Wallets → Wallet → Wallets × Bytes
  add_new_wallet ws new_wallet =
      let wallet_address = address new_wallet in
      (record ws { wallets = GoMap.set ws.wallets wallet_address new_wallet }, wallet_address)

  -- The broadcast of Transfer, to every connected node.
  unfoldable pub broadcast : List NodeInfo → Transaction → List Sent
  broadcast [] t = []
  broadcast (n ∷ ns) t =
      record {
        to_address = n.address;
        msg_type = newtxn_msg;
        payload = platform.gob_transaction.encode t;
      }
      ∷ broadcast ns t

module _ ⦃wire : Wire⦄ where
  unfoldable pub add_wallet_addr_to_spv_nodes : Wallets → Bytes → List Sent
  add_wallet_addr_to_spv_nodes ws wallet_address =
      send_to_spv_nodes ws.connected_nodes newaddr_msg
        (wire.gob_new_addr.encode (record { wallet_address = wallet_address }))

  -- The requests of getUTXOs.
  unfoldable pub request_utxos : Wallets → Bytes → List Sent
  request_utxos ws wallet_address =
      send_to_spv_nodes ws.connected_nodes getutxo_msg
        (wire.gob_get_utxo.encode (record { target_address = wallet_address }))

-- The loop of getUTXOs that looks for an answer every 200 milliseconds: `arrived` says which of the
-- answers that have come it takes at the round. loopCounter counts the rounds without an answer; the
-- loop ends after more than 10.
unfoldable pub poll : ℕ → (ℕ → Option (GoMap TxOutputs)) → ℕ → Option (GoMap TxOutputs)
poll zero arrived loop_counter = none
poll (suc rounds) arrived loop_counter =
    let rest = poll rounds arrived (suc loop_counter) in
    elim (arrived loop_counter) [ none ↦ rest | some utxo_map ↦ some utxo_map ]

abbrev pub max_rounds : ℕ
max_rounds = 11

unfoldable pub get_utxos : (ℕ → Option (GoMap TxOutputs)) → Option (GoMap TxOutputs)
get_utxos arrived = poll max_rounds arrived 0

module _ (json : Json) where
  -- What SaveFile writes.
  unfoldable pub save_file : Wallets → Bytes
  save_file ws = json.marshal ws.wallets

  -- The file, if there is one.
  unfoldable pub load_wallets : Option Bytes → Wallets
  load_wallets none = record { connected_nodes = []; wallets = [] }
  load_wallets (some json_str) = record { connected_nodes = []; wallets = json.unmarshal json_str }
