-- ===== src/Network/Peers.antt =====
-- P2PNode of network/network.go.
use echain.Base.{Bytes, List, [], ◌∷◌}
use echain.Network.Messages.{NodeInfo, P2PNode}

unfoldable pub addresses : List NodeInfo → List Bytes
addresses [] = []
addresses (p ∷ ps) = p.address ∷ addresses ps

unfoldable pub get_connected_node_addresses : P2PNode → List Bytes
unfolding addresses
get_connected_node_addresses node = addresses node.connected_peers
