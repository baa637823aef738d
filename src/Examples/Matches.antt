-- ===== src/Examples/Matches.antt =====
-- The matching of feeds at concrete inputs.
use glite_jp.Base.{
  [], ◌∷◌, codes, same, strcmp, true, some, none, ok, fault, List, All, ◌≡◌, ◌↔◌, refl, arith,
}
use glite_jp.Types.{AttrVal}
use glite_jp.Attr.Compare.{fb_cmp, by_size, memcmp_sized}
use glite_jp.Attr.Plugins.{attrval_cmp, get_plugin, get_namespace, find_plugin, fallback_plugin}
use glite_jp.Feed.{check_qry_item}
use glite_jp.Feed.Matching.{first_named, is_feed_matching}
use glite_jp.Feed.Matching.Known.{IsMet, is_feed_matching-IsMet, is_feed_matching_overrun}
use glite_jp.Examples.Attrs.{plain}
use glite_jp.Examples.Feeds.{queue_name, between}
use glite_jp.Examples.Batches.{of_user, queues}

abbrev pub only_queue : List AttrVal
only_queue = queue_name ∷ []

pub queue_named : first_named between.attr only_queue ≡ some queue_name
unfolding same strcmp
queue_named = refl

pub queue_met : check_qry_item plain [] between queue_name ≡ ok true
unfolding check_qry_item attrval_cmp get_plugin get_namespace find_plugin fallback_plugin fb_cmp
    by_size memcmp_sized same strcmp
queue_met = refl

user_unnamed : first_named of_user.attr only_queue ≡ none
unfolding same strcmp
user_unnamed = refl

is_feed_matching-IsMet_example :
    (is_feed_matching plain [] queues (some (between ∷ [])) (codes "one") only_queue ≡ ok true)
    ↔ All (IsMet plain [] queues only_queue) (between ∷ [])
is_feed_matching-IsMet_example =
    is_feed_matching-IsMet plain [] queues (between ∷ []) (codes "one") only_queue
      ((queue_name, queue_named), tt) (omega arith)

is_feed_matching_overrun_example :
    is_feed_matching plain [] queues (some (between ∷ of_user ∷ [])) (codes "one") only_queue
    ≡ fault
is_feed_matching_overrun_example =
    is_feed_matching_overrun plain [] queues between [] of_user (codes "one") only_queue
      ((queue_name, queue_named, queue_met), tt) user_unnamed (omega arith)
