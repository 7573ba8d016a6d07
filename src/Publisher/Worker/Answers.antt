-- ===== src/Publisher/Worker/Answers.antt =====
-- How a worker of publisherd settles a message, whatever the network does.
use oxifed.Base.{
  suc, ◌+◌, ◌<◌, ◌≡◌, refl, String, true, false, Option, none, some, List, [], ◌∷◌, Result, ok, err,
  inl, inr, length, arith, Result-cases, Option-cases, sym, ◌∙◌, ap,
}
use oxifed.Vocab.{Url, UrlLib, Activity}
use oxifed.Vocab.Entity.{Serde}
use oxifed.Signature.Types.{DateTime, Crates}
use oxifed.Client.{ClientError, ActivityPubClient, Network, send_to_inbox}
use oxifed.Publisher.Recipients.{extract_recipients}
use oxifed.Publisher.Retry.{RetryConfig, Outcome}
use oxifed.Publisher.Retry.Attempts.{deliver_with_retry-IsDelivery, no_attempts, outcome_of}
use oxifed.Publisher.Worker.{
  PublisherError, KeyDocument, Tally, Disposition, ack, nack, crashed, unsigned_client,
  signing_client, stored_pem, build_signing_client, client_for, actor_id, get_inbox_url, count,
  deliver, serve, serve_all, no_tally, finished, process_parsed, process_activity, should_requeue,
  disposition,
}

-- Both outcomes of a delivery that ended count one recipient.
count_one :
    (o : Outcome) (r : Result ClientError (Unit {0})) (t : Tally)
    → o ≡ outcome_of r
    → (t' : Tally) × (count o t ≡ some t')
      × (t'.successful + t'.failed ≡ suc (t.successful + t.failed))
count_one o (ok tt) t e = (record t { successful = t.successful + 1 }, rw e refl, omega arith)
count_one o (err x) t e = (record t { failed = t.failed + 1 }, rw e refl, omega arith)

finished_tally :
    {W : Type 0} (p : Option Tally × W) (t : Tally) → p.0 ≡ some t → (finished p).0 ≡ some (ok t)
finished_tally (none, w) t e = cc
finished_tally (some x, w) t e = ap (λ (y : Tally). some (ok y)) (cc)

finished-none : {W : Type 0} (p : Option Tally × W) → p.0 ≡ none → (finished p).0 ≡ none
finished-none (none, w) e = refl
finished-none (some x, w) e = cc

-- The settlement of a message, told from its parsing and the building of the client alone.
abbrev pub settlement :
    Result String Activity → (Activity → Result PublisherError ActivityPubClient) → Disposition
settlement (err e) client = nack false
settlement (ok activity) client = elim (client activity) [ ok _ ↦ ack | err _ ↦ nack true ]

module _ (client_of : Activity → Result PublisherError ActivityPubClient)
    (activity : Activity) where
  settlement-ack :
      (client : ActivityPubClient)
      → client_of activity ≡ ok client
      → settlement (ok activity) client_of ≡ ack
  settlement-ack client h = ground arith

  settlement-nack :
      (e : PublisherError)
      → client_of activity ≡ err e
      → settlement (ok activity) client_of ≡ nack true
  settlement-nack e h = ground arith

module _ (crates : Crates) (urls : UrlLib) (serde : Serde) {W : Type 0} (net : Network crates W)
    (db : Option (String → Result String (List KeyDocument))) (now later : DateTime)
    (version : String) (config : RetryConfig) where
  module _ (client : ActivityPubClient) (activity : Activity)
      (retries : 0 < config.retry_attempts) where
    deliver_one :
        (inbox : Result PublisherError Url) (t : Tally) (w : W)
        → (t' : Tally) × ((deliver crates urls serde net db now later version config client activity
              inbox t w).0
            ≡ some t')
          × (t'.successful + t'.failed ≡ suc (t.successful + t.failed))
    deliver_one (err e) t w = (record t { failed = t.failed + 1 }, refl, omega arith)
    deliver_one (ok inbox_url) t w =
        let d =
          deliver_with_retry-IsDelivery config
            (send_to_inbox crates urls net client inbox_url activity) w retries in
        count_one _ _ t d.result

    serve_one :
        (u : Url) (t : Tally) (w : W)
        → (t' : Tally) × ((serve crates urls serde net db now later version config client activity u
              t w).0
            ≡ some t')
          × (t'.successful + t'.failed ≡ suc (t.successful + t.failed))
    unfolding serve
    serve_one u t w =
        let found = get_inbox_url crates urls serde net db now later version client u w in
        deliver_one found.0 t found.1

    serve_all_counts :
        (us : List Url) (t : Tally) (w : W)
        → (t' : Tally) × ((serve_all crates urls serde net db now later version config client
              activity us t w).0
            ≡ some t')
          × (t'.successful + t'.failed ≡ t.successful + t.failed + length us)
    unfolding serve_all
    serve_all_counts [] t w = (t, refl, omega arith)
    serve_all_counts (u ∷ us) t w =
        let (t₁, one, plus) = serve_one u t w in
        let (t₂, rest, total) =
          serve_all_counts us t₁
            (serve crates urls serde net db now later version config client activity u t w).1 in
        (t₂, rw (one, serve_all) rest, omega arith)

  -- Once an activity has parsed and its client is built, the message is acknowledged and every
  -- recipient is counted once, as a success or a failure, whatever the network answers.
  pub process_activity-counts :
      (activity : Activity) (client : ActivityPubClient) (w : W)
      → 0 < config.retry_attempts
      → client_for crates urls serde net db now later version activity ≡ ok client
      → (t : Tally) × ((process_activity crates urls serde net db now later version config
            (ok activity)
            w).0
          ≡ some (ok t))
        × (t.successful + t.failed ≡ length (extract_recipients urls activity))
  unfolding process_activity
  process_activity-counts activity client w h built =
      let (t, served, total) =
        serve_all_counts client activity h (extract_recipients urls activity) no_tally w in
      (t, rw (built, process_parsed) (finished_tally _ t served), omega arith)

  unsigned_client-requeues :
      (e : PublisherError)
      → unsigned_client crates urls serde net db now later version ≡ err e
      → should_requeue e ≡ true
  unfolding unsigned_client should_requeue
  unsigned_client-requeues e h = ground arith

  signing_client-requeues :
      (actor pem : String) (e : PublisherError)
      → signing_client crates urls serde net db now later version actor pem ≡ err e
      → should_requeue e ≡ true
  unfolding signing_client should_requeue
  signing_client-requeues actor pem e h = ground arith

  build_signing_client-requeues :
      (actor : String) (e : PublisherError)
      → build_signing_client crates urls serde net db now later version actor ≡ err e
      → should_requeue e ≡ true
  unfolding build_signing_client
  build_signing_client-requeues actor e h =
      elim (Option-cases (stored_pem crates urls serde net db now later version actor)) [
        | inl none_stored ↦ unsigned_client-requeues e (ground arith)
        | inr (pem, stored) ↦ signing_client-requeues actor pem e (ground arith)
      ]

  client_for-requeues :
      (activity : Activity) (e : PublisherError)
      → client_for crates urls serde net db now later version activity ≡ err e
      → should_requeue e ≡ true
  unfolding client_for
  client_for-requeues activity e h = elim (Option-cases activity.actor) [
    | inl nobody ↦ unsigned_client-requeues e (ground arith)
    | inr (a, somebody) ↦ build_signing_client-requeues (actor_id a) e (ground arith)
  ]

  process_activity-broken :
      (activity : Activity) (e : PublisherError) (w : W)
      → client_for crates urls serde net db now later version activity ≡ err e
      → (process_activity crates urls serde net db now later version config (ok activity) w).0
        ≡ some (err e)
  unfolding process_activity
  process_activity-broken activity e w h = rw (h, process_parsed) refl

  -- A message is rejected for good if it does not parse, put back on the queue if the client of
  -- its actor cannot be built, and acknowledged otherwise: no failure to fetch a recipient or to
  -- deliver ever puts it back.
  pub process_activity-settlement :
      (parsed : Result String Activity) (w : W)
      → 0 < config.retry_attempts
      → disposition (process_activity crates urls serde net db now later version config parsed w).0
        ≡ settlement parsed (client_for crates urls serde net db now later version)
  unfolding process_activity disposition
  process_activity-settlement (err e) w h = refl
  process_activity-settlement (ok activity) w h =
      elim (Result-cases (client_for crates urls serde net db now later version activity)) [
        | inl (client, built) ↦
            let (t, done, _) = process_activity-counts activity client w h built in
            ap disposition done
            ∙ sym (
                settlement-ack (client_for crates urls serde net db now later version) activity
                  client built)
        | inr (e, broken) ↦
            ap disposition (process_activity-broken activity e w broken)
            ∙ ap nack (client_for-requeues activity e broken)
            ∙ sym (
                settlement-nack (client_for crates urls serde net db now later version) activity e
                  broken)
      ]

  serve_crashes :
      (activity : Activity) (client : ActivityPubClient) (u inbox : Url) (t : Tally) (w : W)
      → config.retry_attempts ≡ 0
      → (get_inbox_url crates urls serde net db now later version client u w).0 ≡ ok inbox
      → (serve crates urls serde net db now later version config client activity u t w).0 ≡ none
  unfolding serve
  serve_crashes activity client u inbox t w none_left found =
      let w' = (get_inbox_url crates urls serde net db now later version client u w).1 in
      ap
        (λ (i : Result PublisherError Url).
          (deliver crates urls serde net db now later version config client activity i t w').0)
        found
      ∙ ap (λ (o : Outcome). count o t)
          (no_attempts config (send_to_inbox crates urls net client inbox activity) w' none_left)

  serve_all_crashes :
      (activity : Activity) (client : ActivityPubClient) (u : Url) (us : List Url) (t : Tally)
      (w : W)
      → (serve crates urls serde net db now later version config client activity u t w).0 ≡ none
      → (serve_all crates urls serde net db now later version config client activity (u ∷ us) t w).0
        ≡ none
  unfolding serve_all
  serve_all_crashes activity client u us t w h = rw (h, serve_all) refl

  -- With `retry_attempts` 0 the first recipient whose inbox is found ends the worker in a panic,
  -- before anything is sent.
  zero_attempts-crashes :
      (activity : Activity) (client : ActivityPubClient) (u : Url) (us : List Url) (inbox : Url)
      (w : W)
      → config.retry_attempts ≡ 0
      → client_for crates urls serde net db now later version activity ≡ ok client
      → extract_recipients urls activity ≡ u ∷ us
      → (get_inbox_url crates urls serde net db now later version client u w).0 ≡ ok inbox
      → disposition
          (process_activity crates urls serde net db now later version config (ok activity) w).0
        ≡ crashed
  unfolding process_activity disposition
  zero_attempts-crashes activity client u us inbox w none_left built named found =
      let one = serve_crashes activity client u inbox no_tally w none_left found in
      let ended : (process_activity crates urls serde net db now later version config (ok activity)
            w).0
          ≡ none =
        rw (built, process_parsed)
          (rw named (finished-none _ (serve_all_crashes activity client u us no_tally w one))) in
      ap disposition ended
