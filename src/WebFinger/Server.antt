-- ===== src/WebFinger/Server.antt =====
-- crates/domainservd/src/webfinger.rs: the profile of a resource.
use oxifed.Base.{
  String, Bool, true, false, Option, none, some, List, [], ◌∷◌, ◌++◌, Result, ok, err, map_option,
  and_then, unwrap_or, if◌then◌else◌, ◌||◌, ◌==◌, ◌⧺◌, not, any, keep, starts_with, replace,
}
use oxifed.Vocab.{UrlLib}
use oxifed.Database.Documents.{JrdLink, JrdResource, Store}
use oxifed.Database.Manager
use oxifed.Database.Manager.{Drivers, has_subject}
use oxifed.Commands.Persons.{self_link, find_profile}
use oxifed.Database.Collections.{is_there}

pub record WebfingerQuery : Type 0 where
  pub resource : String
  pub relations : Option (List String)

pub data WebfingerError : Type 0 where
  resource_not_found invalid_resource db_error json_error : String → WebfingerError

-- the status of the response to an error
abbrev pub status_of : WebfingerError → String
status_of (resource_not_found _) = "404"
status_of (invalid_resource _) = "400"
status_of _ = "500"

-- the fields of `AppState` that a query for a domain reads
pub record AppState : Type 0 where
  pub drivers : Drivers
  pub urls : UrlLib
  pub admin_api_url : Option String
  pub oidc_issuer_url : Option String
  pub oidc_audience : Option String

abbrev link_to : String → Option String → List JrdLink
link_to rel none = []
link_to rel (some href) =
    record { rel = rel; type_ = none; href = some href; titles = none; properties = none } ∷ []

-- `relations.contains(&link.rel)`
abbrev pub is_asked : List String → JrdLink → Bool
is_asked relations link = any (λ r. r == link.rel) relations

abbrev pub filtered : Option (List String) → List JrdLink → List JrdLink
filtered none links = links
filtered (some relations) links = keep (is_asked relations) links

unfoldable pub build_domain_jrd : String → AppState → Option (List String) → JrdResource
build_domain_jrd resource state relations = record {
  subject = some resource;
  aliases = none;
  properties = none;
  links = some (
      filtered relations (
        link_to "https://oxifed.io/ns/admin-api" state.admin_api_url
        ++ (link_to "https://oxifed.io/ns/oauth-audience" state.oidc_audience
            ++ link_to "http://openid.net/specs/connect/1.0/issuer" state.oidc_issuer_url)));
}

abbrev links_of : JrdResource → List JrdLink
links_of jrd = unwrap_or jrd.links []

abbrev is_self : JrdLink → Bool
is_self link = link.rel == "self"

abbrev first_alias : Option (List String) → Option String
first_alias (some (alias ∷ _)) = some alias
first_alias _ = none

-- with the link that an older profile lacks
unfoldable pub with_self_link : JrdResource → JrdResource
unfolding self_link replace
with_self_link jrd = if any is_self (links_of jrd) then jrd else elim (first_alias jrd.aliases) [
  | none ↦ jrd
  | some alias ↦ record jrd {
    links = some (links_of jrd ++ self_link (replace alias "/@" "/users/") ∷ []);
  }
]

abbrev pub with_relations : Option (List String) → JrdResource → JrdResource
with_relations relations jrd = record jrd { links = map_option (filtered relations) jrd.links }

unfoldable pub find_resource :
    AppState → Option (List String) → String → Store → Result WebfingerError JrdResource
unfolding with_self_link
find_resource state relations subject s = elim (find_profile state.drivers subject s) [
  | err e ↦ err (db_error e)
  | ok none ↦ err (resource_not_found subject)
  | ok (some jrd) ↦ ok (with_relations relations (with_self_link jrd))
]

-- the host of a query for a whole domain, if it is one that is served
abbrev domain_asked : UrlLib → String → Option String
domain_asked urls resource =
    if starts_with resource "https://"
    then and_then (urls.parse resource)
        (λ u. if (urls.path u == "/") || (urls.path u == "") then urls.host_str u else none)
    else none

abbrev pub serves : AppState → Option String → Store → Bool
serves state none s = false
serves state (some host) s = elim (is_there (Manager.find_domain_by_name state.drivers host s)) [
  | ok (some _) ↦ true
  | _ ↦ false
]

abbrev is_resource : String → Bool
is_resource resource =
    starts_with resource "acct:" || (starts_with resource "act:" || starts_with resource "https://")

unfoldable pub handle_webfinger :
    AppState → WebfingerQuery → Store → Result WebfingerError JrdResource
unfolding starts_with replace build_domain_jrd find_resource
handle_webfinger state query s =
    if not (is_resource query.resource)
    then err
        (invalid_resource ("Resource must start with 'acct:' or 'https://': " ⧺ query.resource))
    else if serves state (domain_asked state.urls query.resource) s
    then ok (build_domain_jrd query.resource state query.relations)
    else find_resource state query.relations (replace query.resource "act:" "acct:") s
