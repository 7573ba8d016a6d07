-- ===== src/Tests/Replies.antt =====
-- The follows of the memory driver, the id of a note, and a reply to a remote call.
use text.Mathlib.TextLemmas.{nil-append, cons-append, append_assoc}
use oxifed.Base.{
  ℕ, zero, suc, String, count, ◌⧺◌, arith, ap, sym, ◌∙◌, ◌≡◌, refl, Bool, true, false, none, some,
  ◌⊎◌, ok, unwrap_or,
}
use oxifed.Vocab.{UrlLib}
use oxifed.Inbox.Rows.{Laws}
use oxifed.Database.Collections.{collections}
use oxifed.Database.Rows.{collections-Laws}
use oxifed.Commands.Notes.{parse_note_id, note_id_of}
use oxifed.Commands.Notes.Ids.{KeepsHost, parse_note_id-note_id_of}
use oxifed.Commands.Messages.{MessageEnum, user_rpc_request, list_users}
use oxifed.Commands.Rpc.{BasicProperties, Reply, process_rpc_message}
use oxifed.Commands.Rpc.Replies.{IsAnswer, is_request, process_rpc_message-cases}
use oxifed.Tests.{url, test_urls}
use oxifed.Tests.Followers.{test_env}
use oxifed.Tests.Memory.{memory_laws, same_follow, follows_unique, test_drivers, empty_store}

collections-Laws_example : Laws (collections test_drivers)
collections-Laws_example = collections-Laws test_drivers (memory_laws same_follow) follows_unique

abbrev without : ℕ → String → String
without zero s = s
without (suc n) String.[] = ""
without (suc n) (String.◌∷◌ c s) = without n s

without-count : (s t : String) → without (count s) (s ⧺ t) ≡ t
unfolding count
without-count String.[] t = nil-append t
without-count (String.◌∷◌ c s) t = rw cons-append (without-count s t)

-- the URLs of one host
abbrev note_urls : UrlLib
note_urls = record test_urls {
  parse = λ s. some (url s);
  host_str = λ u. some "example.org";
  path = λ u. without (count "https://example.org") u.as_str;
}

note_urls-KeepsHost : KeepsHost note_urls "example.org"
note_urls-KeepsHost path h = (
  url ("https://" ⧺ "example.org" ⧺ "/" ⧺ path),
  refl,
  refl,
  ap (without (count "https://example.org"))
        (sym (append_assoc "https://" "example.org" ("/" ⧺ path)))
      ∙ without-count "https://example.org" ("/" ⧺ path),
)

parse_note_id-note_id_of_example :
    parse_note_id note_urls (note_id_of "carol" "example.org" "0001") ≡ ok ("carol", "example.org")
parse_note_id-note_id_of_example =
    parse_note_id-note_id_of note_urls "carol" "example.org" "0001" note_urls-KeepsHost
      (ground arith) (ground arith)

abbrev listing : MessageEnum
listing = user_rpc_request (record { request_id = "7"; request_type = list_users })

abbrev properties : BasicProperties
properties = record { reply_to = some "replies"; correlation_id = none }

process_rpc_message-cases_example :
    ((process_rpc_message test_drivers
          (test_env (ok tt))
          (λ a. true)
          (some listing)
          properties
          empty_store
        ≡ none)
      × ((is_request listing ≡ false)
          ⊎ (properties.reply_to ≡ none)
          ⊎ ((a : MessageEnum) × IsAnswer listing a × (Path Bool true false))))
    ⊎ ((reply : Reply) × (process_rpc_message test_drivers
            (test_env (ok tt))
            (λ a. true)
            (some listing)
            properties
            empty_store
          ≡ some reply)
        × (properties.reply_to ≡ some reply.routing_key)
        × (reply.correlation_id ≡ unwrap_or properties.correlation_id "unknown")
        × IsAnswer listing reply.body)
process_rpc_message-cases_example =
    process_rpc_message-cases test_drivers (test_env (ok tt)) empty_store (λ a. true) listing
      properties
