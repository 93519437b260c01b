-- ===== src/Devmode/Publishing/Quiet.antt =====
-- Which calls of devmode finalize no block: all but `finalizeBlock`, as the validator counts blocks.
use sawtooth_sdk_go.Base.{
  text, lookup, [], ◌∷◌, ◌≡◌, refl, ◌∙◌, ℕ, zero, suc, Bytes, List, Option, none, some, Bool, true,
  false, ◌==◌, bytes_ltb, ltb, bytes_eq, Bool-cases, inl, inr, if◌then◌else◌,
}
use sawtooth_sdk_go.Processor.Errors.{
  Error, Outcome, ok, err, panic, Call, continue_with, lift, ◌>>=◌, ◌>>◌,
}
use sawtooth_sdk_go.Consensus.Types.{
  Block, PeerMessage, block_id_null, block_id_as_bytes, new_block_id_from_bytes,
}
use sawtooth_sdk_go.Consensus.Interface.{ConsensusService}
use sawtooth_sdk_go.Devmode.{
  must, or_panic, block_in, check_consensus, takes_over, commit_block, ignore_block,
  send_block_received, get_chain_head, get_block, ancestor, settle, settle_fork, fork_choice,
  handle_block_new, handle_block_valid,
}
use sawtooth_sdk_go.Devmode.Blocks.{Clock, handle_peer_message, broadcast_published_block}

module _ {W : Type 0} (blocks : W → ℕ) where
  -- A call leaves the number of blocks that were finalized.
  pub record Quiet {A : Type 0} (m : Call W A) : Type 0 where
    pub quiet : (w : W) → blocks (m w).1 ≡ blocks w

  pub lift-Quiet : {A : Type 0} (o : Outcome A) → Quiet (lift o)
  lift-Quiet o = record { quiet = λ w. refl }

  >>=-Quiet :
      {A B : Type 0} (m : Call W A) (f : A → Call W B)
      → Quiet m
      → ((a : A) → Quiet (f a))
      → Quiet (m >>= f)
  >>=-Quiet {A} {B} m f first next = record { quiet = λ w. go w (m w) (first.quiet w) }
    where
      go :
          (w : W) (r : Outcome A × W)
          → blocks r.1 ≡ blocks w
          → blocks (continue_with f r).1 ≡ blocks w
      go w (ok a, u) same = (next a).quiet u ∙ same
      go w (err e, u) same = same
      go w (panic, u) same = same

  must-Quiet : {A : Type 0} (m : Call W A) → Quiet m → Quiet (must m)
  unfolding must or_panic
  must-Quiet {A} m q = record { quiet = λ w. go w (m w) (q.quiet w) }
    where
      go : (w : W) (r : Outcome A × W) → blocks r.1 ≡ blocks w → blocks (or_panic r).1 ≡ blocks w
      go w (ok a, u) same = same
      go w (err e, u) same = same
      go w (panic, u) same = same

  if-Quiet :
      {A : Type 0} (b : Bool) (m n : Call W A) → Quiet m → Quiet n → Quiet (if b then m else n)
  if-Quiet true m n left right = left
  if-Quiet false m n left right = right

  -- How the validator counts: a finalization that succeeds adds a block, and no other call of these
  -- does, nor the clock.
  pub record Counts (service : ConsensusService W) (clock : Clock W) : Type 0 where
    pub finalize_adds :
        (bytes : Bytes) (w : W) {id : Bytes} {t : W}
        → service.finalize_block bytes w ≡ (ok id, t)
        → blocks t ≡ suc (blocks w)
    pub finalize_refused :
        (bytes : Bytes) (w : W) {e : Error} {t : W}
        → service.finalize_block bytes w ≡ (err e, t)
        → blocks t ≡ blocks w
    pub finalize_stops :
        (bytes : Bytes) (w : W) {t : W}
        → service.finalize_block bytes w ≡ (panic, t)
        → blocks t ≡ blocks w
    pub summarizes : Quiet service.summarize_block
    pub sends : (peer kind bytes : Bytes) → Quiet (service.send_to peer kind bytes)
    pub broadcasts : (kind bytes : Bytes) → Quiet (service.broadcast kind bytes)
    pub checks : (ids : List Bytes) → Quiet (service.check_blocks ids)
    pub fails : (id : Bytes) → Quiet (service.fail_block id)
    pub commits : (id : Bytes) → Quiet (service.commit_block id)
    pub ignores : (id : Bytes) → Quiet (service.ignore_block id)
    pub gets : (ids : List Bytes) → Quiet (service.get_blocks ids)
    pub heads : Quiet service.get_chain_head
    pub sleeps : (w : W) → blocks (clock.sleep_second w) ≡ blocks w
    pub reads : (w : W) → blocks (clock.now w).1 ≡ blocks w

module _ {W : Type 0} (blocks : W → ℕ) (service : ConsensusService W) (clock : Clock W)
    (counts : Counts blocks service clock) where
  get_block-Quiet : (id : Bytes) → Quiet blocks (get_block service id)
  unfolding get_block
  get_block-Quiet id =
      >>=-Quiet blocks (must (service.get_blocks (id ∷ [])))
        (λ found. lift (block_in (lookup id found))) (must-Quiet blocks _ (counts.gets (id ∷ [])))
        λ found. lift-Quiet blocks (block_in (lookup id found))

  pub handle_block_new-Quiet : (block : Block) → Quiet blocks (handle_block_new service block)
  unfolding handle_block_new
  handle_block_new-Quiet block =
      if-Quiet blocks (bytes_eq block.previous_id block_id_null) _ _ (lift-Quiet blocks (ok tt)) (
        if-Quiet blocks (check_consensus block) _ _
          (must-Quiet blocks _ (counts.checks (block.block_id ∷ [])))
          (must-Quiet blocks _ (counts.fails block.block_id)))

  ancestor-Quiet : (fuel n : ℕ) (b : Block) → Quiet blocks (ancestor service fuel n b)
  unfolding ancestor
  ancestor-Quiet zero n b = record { quiet = λ w. refl }
  ancestor-Quiet (suc fuel) n b = record {
    quiet = λ w.
        go (λ p. ancestor-Quiet fuel n p) w (get_block service b.previous_id w)
          ((get_block-Quiet b.previous_id).quiet w);
  }
    where
      go :
          ((p : Block) → Quiet blocks (ancestor service fuel n p))
          → (w : W) (r : Outcome Block × W) → blocks r.1 ≡ blocks w
          → (let next : Outcome (Option Block) × W = elim r.0 [
            | ok p ↦ elim (p.block_num == n) [
              | true ↦ (ok (some p), r.1)
              | false ↦ ancestor service fuel n p r.1
            ]
            | err e ↦ (err e, r.1)
            | panic ↦ (panic, r.1)
          ] in
              blocks next.1 ≡ blocks w)
      go below w (ok p, t) same = elim (Bool-cases (p.block_num == n)) [
        | inl found ↦ rw found same
        | inr further ↦ rw further ((below p).quiet t ∙ same)
      ]
      go below w (err e, t) same = same
      go below w (panic, t) same = same

  settle-Quiet : (id : Bytes) (wins : Bool) → Quiet blocks (settle service id wins)
  unfolding settle
  settle-Quiet id wins =
      >>=-Quiet blocks (if wins then commit_block service id else ignore_block service id)
        (λ u. lift (ok (some u)))
        (if-Quiet blocks wins _ _ (must-Quiet blocks _ (counts.commits id))
          (must-Quiet blocks _ (counts.ignores id)))
        λ u. lift-Quiet blocks (ok (some u))

  settle_fork-Quiet :
      (id : Bytes) (block : Block) (a : Option Block)
      → Quiet blocks (settle_fork service id block a)
  unfolding settle_fork
  settle_fork-Quiet id block none = lift-Quiet blocks (ok none)
  settle_fork-Quiet id block (some a) = settle-Quiet id (bytes_ltb a.block_id block.block_id)

  fork_choice-Quiet :
      (fuel : ℕ) (id : Bytes) (block head : Block)
      → Quiet blocks (fork_choice service fuel id block head)
  unfolding fork_choice
  fork_choice-Quiet fuel id block head =
      if-Quiet blocks (takes_over block head) _ _ (settle-Quiet id true) (
        if-Quiet blocks (ltb block.block_num head.block_num) _ _
          (>>=-Quiet blocks _ (settle_fork service id block)
            (ancestor-Quiet fuel block.block_num head) (settle_fork-Quiet id block))
          (settle-Quiet id false))

  pub handle_block_valid-Quiet :
      (fuel : ℕ) (id : Bytes) → Quiet blocks (handle_block_valid service fuel id)
  unfolding handle_block_valid
  handle_block_valid-Quiet fuel id =
      >>=-Quiet blocks (get_block service id)
        (λ block. send_block_received service block >> get_chain_head service >>= λ head.
          fork_choice service fuel id block head)
        (get_block-Quiet id)
        λ block.
          >>=-Quiet blocks (send_block_received service block >> get_chain_head service)
            (λ head. fork_choice service fuel id block head)
            (>>=-Quiet blocks (send_block_received service block) (λ u. get_chain_head service)
              (must-Quiet blocks _
                (counts.sends block.signer_id (text "received") (block_id_as_bytes block.block_id)))
              λ u. must-Quiet blocks _ counts.heads)
            λ head. fork_choice-Quiet fuel id block head

  pub handle_peer_message-Quiet :
      (m : PeerMessage) (sender : Bytes) → Quiet blocks (handle_peer_message service clock m sender)
  unfolding handle_peer_message
  handle_peer_message-Quiet m sender =
      if-Quiet blocks (bytes_eq m.header.message_type (text "published")) _ _
        (lift-Quiet blocks (ok tt))
        (if-Quiet blocks (bytes_eq m.header.message_type (text "received")) _ _
          (must-Quiet blocks _ (
            counts.sends sender (text "ack")
              (block_id_as_bytes (new_block_id_from_bytes m.content))))
          (if-Quiet blocks (bytes_eq m.header.message_type (text "ack")) _ _
            (lift-Quiet blocks (ok tt)) (lift-Quiet blocks panic)))

  pub broadcast-Quiet : (id : Bytes) → Quiet blocks (broadcast_published_block service clock id)
  unfolding broadcast_published_block
  broadcast-Quiet id =
      must-Quiet blocks _ (counts.broadcasts (text "published") (block_id_as_bytes id))
