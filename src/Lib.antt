-- ===== src/Lib.antt =====
-- Oxifed, a multi-domain ActivityPub server: the domain service takes activities in its inboxes,
-- and commands from a message queue, the publisher delivers activities to the inboxes of other
-- servers, and both share a library with the vocabulary, the database, HTTP signatures and a client.
--
-- Base: names, Boolean tests, lists, texts, `Result` and signed numbers that the modules share.
--
-- Vocab: src/lib.rs. JSON values, URLs, objects, links and activities are records and data types
-- with the names of the source; Vocab.Entity is `Deserialize for ActivityPubEntity`. The derived
-- decoders of `serde` and the `url` crate are parameters (`Serde`, `UrlLib`).
--
-- Signature: src/httpsignature.rs. Types has the algorithms, components, parameters and
-- configurations; Parse has `from_input`, `format_parameters` and `Signature::from_request`;
-- SignatureBase has `create_signature_base` and `get_component_value`; Crypto has
-- `create_signature` and `verify_signature`; Verify has `verify_request`; Sign has `sign_request`
-- and `sign_request_legacy`. The crates http, chrono, regex, ring and base64 are the parameter
-- `Crates`; laws of them are assumed only in RoundTrip, whose record `Laws` has the documented
-- behaviour that reading a signature back relies on. Clock readings are arguments, in the order in
-- which the source takes them.
--
-- Client: src/client.rs, from `default_headers` to `send_to_inbox` and `fetch_object`, over a
-- `Network` whose state is passed along.
--
-- Publisher: crates/publisherd/src/main.rs. Recipients has `extract_recipients`, Retry has
-- `deliver_with_retry`, Worker has `build_signing_client`, `get_inbox_url`, `process_activity` and
-- the settlement of a message. The loop of `deliver_with_retry` runs on fuel, one unit for a round;
-- it is given `retry_attempts + 1`, one more than the rounds that send, so that it always comes to
-- the test that ends it.
--
-- Inbox: crates/domainservd/src/activitypub.rs. Types has the documents of src/database.rs and the
-- state of a handler; Documents the documents that are stored and the domain of a request; Handlers
-- the handlers; Post `post_inbox` and `post_shared_inbox`. A handler is a function of the state that
-- returns a result and a state: what was written stays when a later step fails, as in the source.
-- MongoDB is the parameter `Collections`; the laws that the theorems use (`Inbox.Rows.Laws`) are
-- those of single writes under the unique index on the pair of a follow, and leave open whether a
-- write that reports an error changed the document. The broker is the field of `Environment`
-- that takes or refuses a message.
--
-- Outbox: the part of crates/domainservd/src/activitypub.rs by which a client posts. Access has the
-- authentication, over the collection of tokens as a parameter; Entities the documents of objects and
-- the filters on them; Activities `process_create_activity_c2s` and the like; Client
-- `process_client_activity` and `post_outbox`; Endpoints `create_note`, `create_article`,
-- `update_object` and `delete_object`. A filter on an untyped collection is a test of the fields under
-- the names that `serde` stores. The order of the fields of a JSON object is not that of the source.
--
-- Pages: the endpoints of the same file that serve the followers, the followed, the outbox, an object
-- and an activity, over the manager of Database; Kinds has the names of types as `Debug` prints them.
--
-- Delivery: crates/domainservd/src/delivery/mod.rs. Targets has `extract_recipients` and its helpers;
-- Inbox `group_by_shared_inbox` and `deliver_to_inbox`, whose loop has as much fuel as the source
-- allows attempts; Pool the futures of `deliver_activity` as a step relation, in which the order of
-- progress, the answers and the order of a `HashMap` are open. The client, the database and a
-- regular expression are the parameter `Remote`; `remote_of` gives it the functions of Client.
--
-- Database: src/database.rs. Documents has the documents of the collections; Driver what the
-- MongoDB driver does on one collection, as operations on the list of its documents, with the
-- promises `DriverLaws`; Manager and Deletion the functions of `DatabaseManager`. A single operation either
-- succeeds, or reports an error and may have changed what it names. Icon and attachments of an actor
-- are stored in two shapes, and `read_actor` is the decoder that refuses one of them; the same holds of
-- the times that `$currentDate` sets, in an actor and in a follow (`StoredTime`, `read_time`). Collections
-- gives the manager to the inbox and to the commands on domains, in place of their parameters.
--
-- Commands: crates/domainservd/src/rabbitmq.rs, with the messages of src/messaging.rs. Domains has the
-- commands on domains, over `DomainCollections`, which Database.Collections fills; Follows has
-- `handle_follow`, `handle_accept` and `handle_reject`, over the `Collections` of Inbox. Services is
-- what the other commands use, among it the drivers, the clock and the UUID of the run; Keys, Persons
-- and Notes have the commands on keys, persons and users, and notes; Messages the message enum and the
-- remote calls, Rpc their handlers and `process_rpc_message`; Dispatch `process_message` and the
-- consumer, in which each delivery brings services of its own, so that clock and failures are open.
-- Actors and Profiles have the proofs on the collections of actors and of profiles.
--
-- WebFinger: Server is crates/domainservd/src/webfinger.rs; Finger is the client of src/webfinger.rs and
-- the resolution of crates/oxiadm/src/resolve.rs, over an HTTP client and the url crate.
--
-- Pki: src/pki.rs. Keys has PEM, the encoding of a public key, generation and signing; Manager has
-- `PkiManager` and its operations, with the crates as the parameter `KeyCrates`.
--
-- Tests: small instances of the parameters, and each theorem applied to them.
--
-- Not modelled: logging, the connections to MongoDB and RabbitMQ, the form in which
-- all other times are stored (always the same, so that they are numbers here), the document that is
-- served for an actor, NodeInfo, media and OAuth, the text search and the aggregations of the
-- database, the admin service, the command line client but for its resolution of names, and the
-- operator. Lowercasing is that of ASCII letters, which is all that header names and methods have.
pub mod Base
pub mod Client
pub mod Commands
pub mod Database
pub mod Delivery
pub mod Inbox
pub mod Outbox
pub mod Pages
pub mod Pki
pub mod Publisher
pub mod Signature
pub mod Tests
pub mod Vocab
pub mod WebFinger
