-- ===== src/Network/FullNode/Sync/Bounds.antt =====
-- How much the replies to getblocks and getheaders of network/fullnode.go and network/spv.go hold.
use echain.Base.{
  ℕ, suc, ◌≤◌, ◌≡◌, ◌⊎◌, refl, sym, subst, ◌∙◌, inl, inr, Bool, true, false, ◌&&◌, not, List, [],
  ◌∷◌, reverse, Run, ok, timeout, panic, ◌>>=◌, length, length-reverse, length-take-le, take,
  if◌then◌else◌, arith,
}
use echain.Platform.{Platform}
use echain.LevelDb.{LevelDb}
use echain.Blockchain.Chain
use echain.Blockchain.ChainHeader
use echain.Network.Messages.{GetblocksMessage, GetheadersMessage}
use echain.Network.Wire.{Wire, Sent}
use echain.Network.FullNode.{FullNode, send_inv_message, send_header_message, send_get_blocks_msg}
use echain.Network.FullNode.Sync.{append_until, is_nil, reply_getblocks, reply_getheaders}
use echain.Network.FullNode.Sync.Reply.{append_until-take}
use echain.Network.Spv
use echain.Network.Spv.{SpvNode, send_getheaders_msg}
use echain.Network.Spv.Headers

take-some {ℓ} : {A : Type ℓ} (n : ℕ) (xs : List A) → 1 ≤ length xs → 1 ≤ length (take (suc n) xs)
take-some n [] h = h
take-some n (x ∷ xs) h = omega arith

some_of_not_nil {ℓ} : {A : Type ℓ} (xs : List A) → not (is_nil xs) ≡ true → 1 ≤ length xs
some_of_not_nil [] h = cc
some_of_not_nil (x ∷ xs) h = omega arith

-- The loop from an empty list, of a list that is not empty.
append_until_bounds {ℓ} :
    {A : Type ℓ} (n : ℕ) (xs : List A)
    → not (is_nil xs) ≡ true
    → (1 ≤ length (append_until (suc n) [] (reverse xs)))
      × (length (append_until (suc n) [] (reverse xs)) ≤ suc n)
append_until_bounds n xs some =
    let same = append_until-take n (suc n) [] (reverse xs) (omega arith) in
    (
      subst (λ ys. 1 ≤ length ys) (sym same)
          (take-some n (reverse xs) (omega (arith, length-reverse xs, some_of_not_nil xs some))),
      subst (λ ys. length ys ≤ suc n) (sym same) (length-take-le (suc n) (reverse xs)),
    )

-- One message with some elements, another reply, or none.
abbrev pub RepliesWithin {ℓ} : {A : Type ℓ} → ℕ → (List A → Sent) → List Sent → List Sent → Type ℓ
RepliesWithin {A} limit of_list other sent =
    ((xs : List A) × (1 ≤ length xs) × (length xs ≤ limit) × (sent ≡ of_list xs ∷ []))
    ⊎ ((sent ≡ other) ⊎ (sent ≡ []))

-- What the handlers do with the blocks or headers that they found; `other` is the reply where the
-- block of the peer is unknown.
replies {ℓ} :
    {A : Type ℓ} (n : ℕ) (of_list : List A → Sent) (other : List Sent) (run : Run (Bool × List A))
    (sent : List Sent)
    → (run >>= (λ r.
        if r.0 && not (is_nil r.1)
        then ok (of_list (append_until (suc n) [] (reverse r.1)) ∷ [])
        else if not r.0
        then ok other
        else ok []))
      ≡ ok sent
    → RepliesWithin (suc n) of_list other sent
replies n of_list other timeout sent h = cc
replies n of_list other panic sent h = cc
replies n of_list other (ok (false, unmatched)) sent h = inr (inl (cc h))
replies n of_list other (ok (true, [])) sent h = inr (inr (cc h))
replies n of_list other (ok (true, x ∷ xs)) sent h =
    let (some, bound) = append_until_bounds n (x ∷ xs) refl in
    inl (append_until (suc n) [] (reverse (x ∷ xs)), some, bound, cc h)

-- A handler without the other reply.
silent_if_unknown {ℓ} :
    {A : Type ℓ} (found : List A → List Sent) (run : Run (Bool × List A))
    → (run >>= (λ r. if r.0 && not (is_nil r.1) then ok (found r.1) else ok [])) ≡ (
        run >>= (λ r.
          if r.0 && not (is_nil r.1) then ok (found r.1) else if not r.0 then ok [] else ok []))
silent_if_unknown found timeout = refl
silent_if_unknown found panic = refl
silent_if_unknown found (ok (false, unmatched)) = refl
silent_if_unknown found (ok (true, [])) = refl
silent_if_unknown found (ok (true, x ∷ xs)) = refl

module _ {Db Db' : Type 0} ⦃level_db : LevelDb Db⦄ ⦃level_db' : LevelDb Db'⦄ ⦃platform : Platform⦄
    ⦃wire : Wire⦄ where
  -- A getblocks or getheaders message that a node has handled is answered by at most one message.
  -- That of a full node to getblocks is an inv message with 1 to 500 hashes or its own getblocks
  -- message; that to getheaders is a headers message with 1 to 2000 headers. That of an SPV node to
  -- getheaders is such a headers message or its own getheaders message.
  pub replies_within :
      (fuel : ℕ) (full : FullNode Db) (node : SpvNode Db') (b : GetblocksMessage)
      (g : GetheadersMessage) (to_blocks to_headers to_spv_headers : List Sent)
      → reply_getblocks fuel full b ≡ ok to_blocks
      → reply_getheaders fuel full g ≡ ok to_headers
      → Headers.reply_getheaders fuel node g ≡ ok to_spv_headers
      → RepliesWithin 500
          (λ hs. send_inv_message b.addr_from (record { hash_list = hs }))
          (send_get_blocks_msg full b.addr_from ∷ [])
          to_blocks
        × RepliesWithin 2000
            (λ hs. send_header_message g.addr_from (record { header_list = hs }))
            []
            to_headers
        × RepliesWithin 2000
            (λ hs. Spv.send_header_message g.addr_from (record { header_list = hs }))
            (send_getheaders_msg node g.addr_from ∷ [])
            to_spv_headers
  unfolding reply_getblocks reply_getheaders Headers.reply_getheaders
  replies_within fuel full node b g to_blocks to_headers to_spv_headers by_inv by_headers by_spv = (
    replies 499 (λ hs. send_inv_message b.addr_from (record { hash_list = hs }))
        (send_get_blocks_msg full b.addr_from ∷ [])
        (Chain.get_unmatched_blocks fuel full.blockchain b.top_block_hash) to_blocks by_inv,
    replies 1999 (λ hs. send_header_message g.addr_from (record { header_list = hs })) []
        (Chain.get_unmatched_headers fuel full.blockchain g.top_header_hash) to_headers
        (sym (
            silent_if_unknown _
              (Chain.get_unmatched_headers fuel full.blockchain g.top_header_hash))
          ∙ by_headers),
    replies 1999 (λ hs. Spv.send_header_message g.addr_from (record { header_list = hs }))
        (send_getheaders_msg node g.addr_from ∷ [])
        (ChainHeader.get_unmatched_headers fuel node.blockchain_header g.top_header_hash)
        to_spv_headers by_spv,
  )
