-- ===== src/Review/Tests.antt =====
-- Runs of the review hub: a request that a reviewer allows, and one under a remembered choice.
use gosshd_bastion.Base.{◌+◌, ◌*◌, ◌++◌, ◌≤◌, true, false, [], ◌∷◌, none, ◌≡◌, refl, AnyOf}
use gosshd_bastion.Base.Bytes.{codes, bytes_eq}
use gosshd_bastion.Base.Result.{ok, err}
use gosshd_bastion.Review.{
  Review, Verdict, Hub, new_hub, create, find_review, delete_review, active_auto_allow, with_choice,
  choice_key, find_choice, second,
}
use gosshd_bastion.Review.Resolve.{decide, expire_all, expire_reviews}
use gosshd_bastion.Review.Once.{count_pending, count_ended, count_ids}
use gosshd_bastion.Review.Account.{
  Desk, empty_desk, creates, decides, Reached, opened, after, reviews_end_once,
}
use gosshd_bastion.Review.Deadline.{IsOpen, decide_ok, IsRemembered, create_allows}

abbrev asked : Review
asked = record {
  id = [];
  organization_id = codes "o";
  session_id = codes "s";
  target_id = codes "t";
  user_id = codes "u";
  command = codes "ls";
  created_at = 0;
  expires_at = 0;
  default_allow = false;
  auto_allow_minutes = 0;
  auto_allow_expires_at = 0;
  auto_allow_target_ids = [];
}

abbrev yes : Verdict
yes = record { allow = true; reviewer_id = codes "r"; reviewer = codes "root"; decided_at = 0 }

abbrev asked_hub : Hub
asked_hub = (create (codes "1") 5 asked 0 new_hub).0

accepted : (decide 6 (codes "1") yes none [] asked_hub).2 ≡ ok tt
unfolding decide expire_all expire_reviews create find_review delete_review active_auto_allow
    with_choice bytes_eq find_choice
accepted = refl

too_late :
    (decide (5 + 30 * second) (codes "1") yes none [] asked_hub).2
    ≡ err (codes "manual review request not found")
unfolding decide expire_all expire_reviews create find_review delete_review active_auto_allow
    with_choice bytes_eq find_choice
too_late = refl

decide_ok_example : AnyOf (IsOpen (codes "1") 6) asked_hub.pending
decide_ok_example = decide_ok 6 (codes "1") yes none [] asked_hub accepted

abbrev asked_desk : Desk
asked_desk = record {
  hub = asked_hub;
  created = codes "1" ∷ [];
  log = (create (codes "1") 5 asked 0 new_hub).1;
}

asked_desk-Reached : Reached asked_desk
asked_desk-Reached = after (creates empty_desk (codes "1") 5 asked 0 refl) opened

abbrev answered_desk : Desk
answered_desk = record {
  hub = (decide 6 (codes "1") yes none [] asked_hub).0;
  created = codes "1" ∷ [];
  log = asked_desk.log ++ (decide 6 (codes "1") yes none [] asked_hub).1;
}

answered_desk-Reached : Reached answered_desk
answered_desk-Reached = after (decides asked_desk 6 (codes "1") yes none []) asked_desk-Reached

reviews_end_once_example :
    (count_pending (codes "1") answered_desk.hub.pending + count_ended (codes "1") answered_desk.log
      ≡ count_ids (codes "1") answered_desk.created)
    × (count_ids (codes "1") answered_desk.created ≤ 1)
reviews_end_once_example = reviews_end_once {d = answered_desk} answered_desk-Reached (codes "1")

abbrev remembering_hub : Hub
remembering_hub = record new_hub {
  auto_allow =
      (
        choice_key (codes "o") (codes "u"),
        record {
          allow = true;
          minutes = 10;
          expires_at = 600 * second;
          target_ids = codes "t" ∷ [];
        },
      )
      ∷ [];
}

allowed_at_deadline : (create (codes "2") 5 asked 0 remembering_hub).2.default_allow ≡ true
unfolding create with_choice active_auto_allow find_choice bytes_eq
allowed_at_deadline = refl

create_allows_example : IsRemembered 5 asked remembering_hub
create_allows_example = create_allows (codes "2") 5 asked 0 remembering_hub refl allowed_at_deadline
