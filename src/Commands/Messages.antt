-- ===== src/Commands/Messages.antt =====
-- The messages of src/messaging.rs: the requests and answers of remote calls, and the envelope.
use oxifed.Base.{ℤ, String, Bool, Option, List}
use oxifed.Vocab.{Value}
use oxifed.Commands.Domains.{DomainMessage, DomainDeleteMessage}
use oxifed.Commands.Follows.{RelationMessage}
use oxifed.Commands.Keys.{KeyGenerateMessage}
use oxifed.Commands.Persons.{
  ProfileCreateMessage, ProfileUpdateMessage, ProfileDeleteMessage, UserCreateMessage,
}
use oxifed.Commands.Notes.{NoteCreateMessage, NoteUpdateMessage, NoteDeleteMessage}

pub data DomainRpcRequestType : Type 0 where
  list_domains : DomainRpcRequestType
  get_domain : (domain : String) → DomainRpcRequestType

pub record DomainRpcRequest : Type 0 where
  pub request_id : String
  pub request_type : DomainRpcRequestType

pub record DomainInfo : Type 0 where
  pub domain : String
  pub name : Option String
  pub description : Option String
  pub contact_email : Option String
  pub registration_mode : String
  pub authorized_fetch : Bool
  pub max_note_length : Option ℤ
  pub max_file_size : Option ℤ
  pub allowed_file_types : Option (List String)
  pub status : String
  pub created_at : String
  pub updated_at : String

pub data DomainRpcResult : Type 0 where
  domain_list : List DomainInfo → DomainRpcResult
  domain_details : Option DomainInfo → DomainRpcResult
  error : (message : String) → DomainRpcResult

pub record DomainRpcResponse : Type 0 where
  pub request_id : String
  pub result : DomainRpcResult

pub data UserRpcRequestType : Type 0 where
  list_users : UserRpcRequestType
  get_user : (username : String) → UserRpcRequestType

pub record UserRpcRequest : Type 0 where
  pub request_id : String
  pub request_type : UserRpcRequestType

pub record UserInfo : Type 0 where
  pub username : String
  pub display_name : Option String
  pub domain : String
  pub actor_id : String
  pub public_key : Option String
  pub private_key_stored : Bool
  pub created_at : String
  pub updated_at : String

pub data UserRpcResult : Type 0 where
  user_list : List UserInfo → UserRpcResult
  user_details : Option UserInfo → UserRpcResult
  error : (message : String) → UserRpcResult

pub record UserRpcResponse : Type 0 where
  pub request_id : String
  pub result : UserRpcResult

pub data FollowRpcRequestType : Type 0 where
  list_following list_followers : (actor : String) → FollowRpcRequestType

pub record FollowRpcRequest : Type 0 where
  pub request_id : String
  pub request_type : FollowRpcRequestType

pub record FollowInfo : Type 0 where
  pub follower : String
  pub following : String
  pub status : String
  pub activity_id : String
  pub created_at : String
  pub responded_at : Option String

pub data FollowRpcResult : Type 0 where
  follow_list : List FollowInfo → FollowRpcResult
  error : (message : String) → FollowRpcResult

pub record FollowRpcResponse : Type 0 where
  pub request_id : String
  pub result : FollowRpcResult

pub record AnnounceActivityMessage : Type 0 where
  pub action : String
  pub activity_type : String
  pub actor : String
  pub object : String
  pub to : Option String
  pub cc_to : Option String

-- `IncomingObjectMessage` and `IncomingActivityMessage`; `content` is the object or activity, and
-- `author` its `attributed_to` or `actor`
pub record IncomingMessage : Type 0 where
  pub content : Value
  pub content_type : String
  pub author : String
  pub target_domain : String
  pub target_username : Option String
  pub received_at : String
  pub source : Option String

pub data MessageEnum : Type 0 where
  profile_create_message : ProfileCreateMessage → MessageEnum
  profile_update_message : ProfileUpdateMessage → MessageEnum
  profile_delete_message : ProfileDeleteMessage → MessageEnum
  note_create_message : NoteCreateMessage → MessageEnum
  note_update_message : NoteUpdateMessage → MessageEnum
  note_delete_message : NoteDeleteMessage → MessageEnum
  follow_activity_message : RelationMessage → MessageEnum
  like_activity_message : RelationMessage → MessageEnum
  announce_activity_message : AnnounceActivityMessage → MessageEnum
  accept_activity_message : RelationMessage → MessageEnum
  reject_activity_message : RelationMessage → MessageEnum
  domain_create_message : DomainMessage → MessageEnum
  domain_update_message : DomainMessage → MessageEnum
  domain_delete_message : DomainDeleteMessage → MessageEnum
  domain_rpc_request : DomainRpcRequest → MessageEnum
  domain_rpc_response : DomainRpcResponse → MessageEnum
  incoming_object_message : IncomingMessage → MessageEnum
  incoming_activity_message : IncomingMessage → MessageEnum
  key_generate_message : KeyGenerateMessage → MessageEnum
  user_create_message : UserCreateMessage → MessageEnum
  user_rpc_request : UserRpcRequest → MessageEnum
  user_rpc_response : UserRpcResponse → MessageEnum
  follow_rpc_request : FollowRpcRequest → MessageEnum
  follow_rpc_response : FollowRpcResponse → MessageEnum
