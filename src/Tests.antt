-- ===== src/Tests.antt =====
-- Small crates, URLs, documents and a broker, on which the theorems are tried.
mod Wire
mod Signatures
mod Publishing
mod Deliveries
mod Keyring
mod Hosting
mod Store
mod Followers
mod Memory
mod Posting
mod Serving
mod Persons
mod Replies
use oxifed.Base.{
  ℕ, ◌/◌, ◌*◌, String, Bool, true, false, ℤ, pos, negsuc, Option, none, some, List, [], ◌∷◌, Result,
  ok, err, if◌then◌else◌, eqb, length, starts_with, first_part, split_once, and_then, map_option,
  ◌⧺◌,
}
use oxifed.Vocab.{Url, UrlLib, lookup}
use oxifed.Signature.Types.{second, Crates}

abbrev pub url : String → Url
url s = record { as_str = s }

-- the host of `http://host/path`
abbrev pub host : String → Option String
host s =
    map_option (λ p. first_part p.1 47)
      (and_then (map_option (λ p. p.1) (split_once s 47)) (λ t. split_once t 47))

abbrev pub test_urls : UrlLib
test_urls = record {
  parse = λ s. if starts_with s "http" then some (url s) else none;
  scheme = λ u. first_part u.as_str 58;
  host_str = λ u. host u.as_str;
  port = λ u. none;
  path = λ u. "/inbox";
  query = λ u. none;
  set_scheme = λ u s. some (url (s ⧺ ":" ⧺ u.as_str));
}

-- a signature is good if it has three bytes
abbrev pub test_crates : Crates
test_crates = record {
  Headers = List (String × String);
  HeaderValue = String;
  get = λ h name. lookup name h;
  insert = λ h name value. (name, value) ∷ h;
  to_str = λ v. some v;
  header_name = λ s. some s;
  header_value = λ s. some s;
  timestamp = λ t. pos (t / second);
  from_timestamp = λ t. elim t [ pos n ↦ some (n * second) | negsuc n ↦ none ];
  parameter_captures = λ s. ("created", "100") ∷ ("keyid", "main-key") ∷ [];
  component_captures = λ s. "@method" ∷ "@path" ∷ [];
  KeyPair = Bool;
  from_pkcs8 = λ a key. ok true;
  sign = λ a pair rng base. ok (1 ∷ 2 ∷ 3 ∷ []);
  verify = λ a key base bytes. eqb (length bytes) 3;
  encode = λ bytes. "AQID";
  decode = λ s. ok (1 ∷ 2 ∷ 3 ∷ []);
}
