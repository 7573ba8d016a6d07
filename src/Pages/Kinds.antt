-- ===== src/Pages/Kinds.antt =====
-- The names of the types of objects and activities, as `Debug` derives them.
use oxifed.Base.{String}
use oxifed.Vocab.{ObjectType, ActivityType}

unfoldable pub object_name : ObjectType → String
object_name ObjectType.object = "Object"
object_name ObjectType.link = "Link"
object_name ObjectType.activity = "Activity"
object_name ObjectType.intransitive_activity = "IntransitiveActivity"
object_name ObjectType.collection = "Collection"
object_name ObjectType.ordered_collection = "OrderedCollection"
object_name ObjectType.collection_page = "CollectionPage"
object_name ObjectType.ordered_collection_page = "OrderedCollectionPage"
object_name ObjectType.application = "Application"
object_name ObjectType.group = "Group"
object_name ObjectType.organization = "Organization"
object_name ObjectType.person = "Person"
object_name ObjectType.service = "Service"
object_name ObjectType.article = "Article"
object_name ObjectType.audio = "Audio"
object_name ObjectType.document = "Document"
object_name ObjectType.event = "Event"
object_name ObjectType.image = "Image"
object_name ObjectType.note = "Note"
object_name ObjectType.page = "Page"
object_name ObjectType.place = "Place"
object_name ObjectType.profile = "Profile"
object_name ObjectType.relationship = "Relationship"
object_name ObjectType.tombstone = "Tombstone"
object_name ObjectType.video = "Video"
object_name ObjectType.other = "Other"

unfoldable pub activity_name : ActivityType → String
activity_name ActivityType.accept = "Accept"
activity_name ActivityType.add = "Add"
activity_name ActivityType.announce = "Announce"
activity_name ActivityType.arrive = "Arrive"
activity_name ActivityType.block = "Block"
activity_name ActivityType.create = "Create"
activity_name ActivityType.delete = "Delete"
activity_name ActivityType.dislike = "Dislike"
activity_name ActivityType.flag = "Flag"
activity_name ActivityType.follow = "Follow"
activity_name ActivityType.ignore = "Ignore"
activity_name ActivityType.invite = "Invite"
activity_name ActivityType.join = "Join"
activity_name ActivityType.leave = "Leave"
activity_name ActivityType.like = "Like"
activity_name ActivityType.listen = "Listen"
activity_name ActivityType.move = "Move"
activity_name ActivityType.offer = "Offer"
activity_name ActivityType.question = "Question"
activity_name ActivityType.reject = "Reject"
activity_name ActivityType.read = "Read"
activity_name ActivityType.remove = "Remove"
activity_name ActivityType.tentative_reject = "TentativeReject"
activity_name ActivityType.tentative_accept = "TentativeAccept"
activity_name ActivityType.travel = "Travel"
activity_name ActivityType.undo = "Undo"
activity_name ActivityType.update = "Update"
activity_name ActivityType.view = "View"
activity_name ActivityType.other = "Other"
