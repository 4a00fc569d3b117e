-- ===== src/Omnichannel/Worker/Outbound/Retries.antt =====
-- Sends that fail again and again (`_process_outbound_message` of
-- app/services/omnichannel/worker.py).
use a2z_core.Prelude.{
  ℕ, zero, suc, ◌≡◌, refl, ◌∙◌, ap, inl, inr, Bool, false, some, leb, if◌then◌else◌, arith,
  Bool-cases,
}
use a2z_core.Prelude.Dict
use a2z_core.Prelude.Dict.{nat_eq, get-put}
use a2z_core.Prelude.Run.{Result, ok, ◌>>=◌, bind-ok}
use a2z_core.Omnichannel.Connections.{Adapter, email, meta, registry, found_or}
use a2z_core.Omnichannel.Model.{ChannelIdentity, Message, MessageStatus, Db, World, Error}
use a2z_core.Omnichannel.Worker.Outbound.{
  Env, adapter_error, outbound_max_attempts, identity_of, find_connection, context, give_up,
  attempt, adapter_of, load_credentials, after_send, process_outbound_message,
}

-- The state after the first receipts of a message, whose receive counts are 1, 2, and so on.
unfoldable pub receipts : Env → ℕ → ℕ → World → World
receipts env id zero w = w
receipts env id (suc n) w = (process_outbound_message env id (suc n) (receipts env id n w)).1

-- The message after that many failed sends.
abbrev pub given_up : ℕ → Message → Message
given_up n m = if leb outbound_max_attempts n then record m { status = MessageStatus.failed } else m

module _ (env : Env) (id : ℕ) (i : ChannelIdentity) (adapter : Adapter)
    (secrets_work : env.secret_fails ≡ false)
    (sends_fail : (i' : ChannelIdentity) (m' : Message)
      → env.send_outbound i' m' ≡ adapter_error) where
  credentials_load : (a : Adapter) (w : World) → load_credentials env a w ≡ (ok tt, w)
  credentials_load email w = refl
  credentials_load meta w = rw secrets_work refl

  failed_attempt :
      (receive_count : ℕ) (m : Message) (w : World)
      → registry m.channel_type ≡ some adapter
      → attempt env id receive_count m i w ≡ give_up id receive_count m w
  unfolding attempt after_send
  failed_attempt receive_count m w known =
      bind-ok (adapter_of m.channel_type)
        (λ a.
          load_credentials env a >>= λ _. after_send env id receive_count m (env.send_outbound i m))
        w w adapter (ap (λ o. (found_or Error.adapter_error o, w)) known)
      ∙ bind-ok (load_credentials env adapter)
          (λ _. after_send env id receive_count m (env.send_outbound i m)) w w tt
          (credentials_load adapter w)
      ∙ ap (λ answer. after_send env id receive_count m answer w) (sends_fail i m)

  failed_send :
      (receive_count : ℕ) (m : Message) (w : World)
      → registry m.channel_type ≡ some adapter
      → Dict.get id w.db.messages ≡ some m
      → context w.db m ≡ some i
      → process_outbound_message env id receive_count w ≡ give_up id receive_count m w
  unfolding process_outbound_message
  failed_send receive_count m w known present there =
      let attempted = failed_attempt receive_count m w known in
      ground (arith, present, there, attempted)

  given_up-channel : (n : ℕ) (m : Message) → (given_up n m).channel_type ≡ m.channel_type
  given_up-channel n m = elim (Bool-cases (leb outbound_max_attempts n)) [
    | inl last ↦ rw last refl
    | inr more ↦ rw more refl
  ]

  context-failed : (n : ℕ) (m : Message) (db : Db) → context db (given_up n m) ≡ context db m
  unfolding context
  context-failed n m db = elim (Bool-cases (leb outbound_max_attempts n)) [
    | inl last ↦ ground arith
    | inr more ↦ ground arith
  ]

  -- One more failed send.
  gives_up :
      (n : ℕ) (m : Message) (w : World)
      → Dict.get id w.db.messages ≡ some (given_up n m)
      → let r = give_up id (suc n) (given_up n m) w in
        (r.0 ≡ ok false)
        × (Dict.get id r.1.db.messages ≡ some (given_up (suc n) m))
        × (context r.1.db m ≡ context w.db m)
        × (r.1.effects ≡ w.effects)
  unfolding give_up context identity_of find_connection
  gives_up n m w present = elim (Bool-cases (leb outbound_max_attempts (suc n))) [
    | inr more ↦
        let early : leb outbound_max_attempts n ≡ false = ground arith in
        ground (arith, more, early, present)
    | inl last ↦ elim (Bool-cases (leb outbound_max_attempts n)) [
      | inl before ↦ ground (
        arith,
        last,
        before,
        get-put id id (record m { status = MessageStatus.failed }) w.db.messages,
      )
      | inr now ↦ ground (
        arith,
        last,
        now,
        get-put id id (record m { status = MessageStatus.failed }) w.db.messages,
      )
    ]
  ]

  -- While the secrets can be read and every send of the adapter ends in a ChannelAdapterError, a
  -- queued message whose channel has an adapter in the registry and whose conversation, identity and
  -- connection are there is never deleted from the queue: whatever the
  -- number of receipts so far, the next one asks to keep it. The message is as it was before the
  -- fifth receipt and is `failed`, with nothing else changed in it, from the fifth on; and no event
  -- or update is published.
  pub receipts-given_up :
      (n : ℕ) (m : Message) (w : World)
      → registry m.channel_type ≡ some adapter
      → Dict.get id w.db.messages ≡ some m
      → context w.db m ≡ some i
      → let w' = receipts env id n w in
        ((process_outbound_message env id (suc n) w').0 ≡ ok false)
        × (Dict.get id w'.db.messages ≡ some (given_up n m))
        × (context w'.db m ≡ some i)
        × (w'.effects ≡ w.effects)
  unfolding receipts
  receipts-given_up zero m w known present there = (
    ap (λ (r : Result Error Bool × World). r.0) (failed_send 1 m w known present there)
        ∙ (gives_up 0 m w present).0,
    present,
    there,
    refl,
  )
  receipts-given_up (suc n) m w known present there =
      let w' = receipts env id n w in
      let (kept, at_n, there_n, quiet) = receipts-given_up n m w known present there in
      let known_n = ap registry (given_up-channel n m) ∙ known in
      let known_s = ap registry (given_up-channel (suc n) m) ∙ known in
      let sent =
        failed_send (suc n) (given_up n m) w' known_n at_n (context-failed n m w'.db ∙ there_n) in
      let (kept', at_next, same, quiet') = gives_up n m w' at_n in
      let next = (process_outbound_message env id (suc n) w').1 in
      let state = ap (λ (r : Result Error Bool × World). r.1) sent in
      let at_s : Dict.get id next.db.messages ≡ some (given_up (suc n) m) = rw state at_next in
      let there_s : context next.db m ≡ some i = rw state (same ∙ there_n) in
      (
        ap (λ (r : Result Error Bool × World). r.0)
              (failed_send (suc (suc n)) (given_up (suc n) m) next known_s at_s
                (context-failed (suc n) m next.db ∙ there_s))
            ∙ (gives_up (suc n) m next at_s).0,
        at_s,
        there_s,
        rw state (quiet' ∙ quiet),
      )
