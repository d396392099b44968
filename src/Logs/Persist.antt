-- ===== src/Logs/Persist.antt =====
-- What the tables hold after a transaction, key by key.
use gosshd_bastion.Base.{
  ℕ, ◌+◌, List, [], ◌∷◌, ◌++◌, if◌then◌else◌, ◌≡◌, sym, ap, ◌∙◌, arith, Bool-cases, inl, inr,
}
use gosshd_bastion.Logs.{Event, Stats, TrafficKey}
use gosshd_bastion.Logs.Sums.{
  no_stats, add_stats, add_event, sum_at, same_key, share, event_stats, same_key_trans,
  sum_at-add_event, add_stats-none, none-add_stats, add_stats_assoc, add_stats_comm,
}
use gosshd_bastion.Logs.Overflow.{
  Bucket, Database, upsert, write_values, write_traffic_values, collect, write_traffic, persisted,
}
use gosshd_bastion.Logs.Writer.{Tx, batch_stats, commit_tx}

-- What the table holds under a key.
abbrev pub sum_buckets : TrafficKey → List Bucket → Stats
sum_buckets key [] = no_stats
sum_buckets key (b ∷ bs) =
    if same_key b.key key then add_stats b.stats (sum_buckets key bs) else sum_buckets key bs

abbrev pub shares : TrafficKey → List Event → Stats
shares key [] = no_stats
shares key (e ∷ events) = add_stats (share key e) (shares key events)

abbrev pub all_stats : List Event → Stats
all_stats [] = no_stats
all_stats (e ∷ events) = add_stats (event_stats e) (all_stats events)

pub shares-append :
    (k : TrafficKey) (xs ys : List Event)
    → shares k (xs ++ ys) ≡ add_stats (shares k xs) (shares k ys)
shares-append k [] ys = sym (none-add_stats (shares k ys))
shares-append k (x ∷ xs) ys =
    ap (add_stats (share k x)) (shares-append k xs ys)
    ∙ sym (add_stats_assoc (share k x) (shares k xs) (shares k ys))

pub all_stats-append :
    (xs ys : List Event) → all_stats (xs ++ ys) ≡ add_stats (all_stats xs) (all_stats ys)
all_stats-append [] ys = sym (none-add_stats (all_stats ys))
all_stats-append (x ∷ xs) ys =
    ap (add_stats (event_stats x)) (all_stats-append xs ys)
    ∙ sym (add_stats_assoc (event_stats x) (all_stats xs) (all_stats ys))

sum_buckets-upsert :
    (k j : TrafficKey) (s : Stats) (seq : ℕ) (bs : List Bucket)
    → sum_buckets k (upsert j s seq bs)
      ≡ (if same_key j k then add_stats (sum_buckets k bs) s else sum_buckets k bs)
unfolding upsert
sum_buckets-upsert k j s seq [] = ground (arith, add_stats_comm s no_stats)
sum_buckets-upsert k j s seq (b ∷ bs) = elim (Bool-cases (same_key b.key j)) [
  | inl e ↦ ground (
    arith,
    same_key_trans b.key j k e,
    add_stats_assoc b.stats s (sum_buckets k bs),
    add_stats_comm s (sum_buckets k bs),
    add_stats_assoc b.stats (sum_buckets k bs) s,
  )
  | inr e ↦
      ground (arith, sum_buckets-upsert k j s seq bs, add_stats_assoc b.stats (sum_buckets k bs) s)
]

sum_buckets-write_values :
    (k : TrafficKey) (values : List (TrafficKey × Stats)) (seq : ℕ) (bs : List Bucket)
    → sum_buckets k (write_values values seq bs) ≡ add_stats (sum_buckets k bs) (sum_at k values)
unfolding write_values sum_at
sum_buckets-write_values k [] seq bs = sym (add_stats-none (sum_buckets k bs))
sum_buckets-write_values k ((j, s) ∷ values) seq bs =
    sum_buckets-write_values k values (seq + 1) (upsert j s (seq + 1) bs)
    ∙ ground (
      arith,
      sum_buckets-upsert k j s (seq + 1) bs,
      add_stats_assoc (sum_buckets k bs) s (sum_at k values),
    )

sum_buckets-write_traffic_values :
    (k : TrafficKey) (values : List (TrafficKey × Stats)) (db : Database)
    → sum_buckets k (write_traffic_values values db).buckets
      ≡ add_stats (sum_buckets k db.buckets) (sum_at k values)
unfolding write_traffic_values
sum_buckets-write_traffic_values k [] db =
    unfold sum_at in sym (add_stats-none (sum_buckets k db.buckets))
sum_buckets-write_traffic_values k (v ∷ values) db =
    sum_buckets-write_values k (v ∷ values) _ db.buckets

pub sum_buckets-persisted :
    (k : TrafficKey) (total : Stats) (values : List (TrafficKey × Stats)) (db : Database)
    → sum_buckets k (persisted total values db).buckets
      ≡ add_stats (sum_buckets k db.buckets) (sum_at k values)
sum_buckets-persisted k total values db =
    sum_buckets-write_traffic_values k values (record db { totals = add_stats db.totals total })

sum_at-collect :
    (k : TrafficKey) (events : List Event) (m : List (TrafficKey × Stats))
    → sum_at k (collect events m) ≡ add_stats (sum_at k m) (shares k events)
unfolding collect
sum_at-collect k [] m = sym (add_stats-none (sum_at k m))
sum_at-collect k (e ∷ events) m =
    sum_at-collect k events (add_event e m)
    ∙ ap (λ (s : Stats). add_stats s (shares k events)) (sum_at-add_event k e m)
    ∙ add_stats_assoc (sum_at k m) (share k e) (shares k events)

pub sum_buckets-write_traffic :
    (k : TrafficKey) (events : List Event) (db : Database)
    → sum_buckets k (write_traffic events db).buckets
      ≡ add_stats (sum_buckets k db.buckets) (shares k events)
unfolding write_traffic
sum_buckets-write_traffic k events db =
    sum_buckets-write_traffic_values k (collect events []) db
    ∙ ap (add_stats (sum_buckets k db.buckets))
        (sum_at-collect k events [] ∙ unfold sum_at in none-add_stats (shares k events))

pub write_traffic_values-kept :
    (values : List (TrafficKey × Stats)) (db : Database)
    → ((write_traffic_values values db).totals ≡ db.totals)
      × ((write_traffic_values values db).access ≡ db.access)
unfolding write_traffic_values
write_traffic_values-kept values db = ground arith

write_traffic_values-last_seq :
    (values : List (TrafficKey × Stats)) (db : Database)
    → (write_traffic_values values db).last_seq ≡ db.last_seq
unfolding write_traffic_values
write_traffic_values-last_seq values db = ground arith

write_traffic_values-ack :
    (values : List (TrafficKey × Stats)) (db : Database)
    → (write_traffic_values values db).ack ≡ db.ack
unfolding write_traffic_values
write_traffic_values-ack values db = ground arith

batch_stats-all_stats :
    (events : List Event) (s : Stats) → batch_stats events s ≡ add_stats s (all_stats events)
unfolding batch_stats
batch_stats-all_stats [] s = sym (add_stats-none s)
batch_stats-all_stats (e ∷ events) s =
    batch_stats-all_stats events (add_stats s (event_stats e))
    ∙ add_stats_assoc s (event_stats e) (all_stats events)

module _ (db : Database) (tx : Tx) where
  pub commit_tx-totals : (commit_tx db tx).totals ≡ add_stats db.totals (all_stats tx.inserted)
  unfolding commit_tx write_traffic
  commit_tx-totals =
      (write_traffic_values-kept (collect tx.inserted []) _).0
      ∙ ap (add_stats db.totals)
          (batch_stats-all_stats tx.inserted no_stats ∙ none-add_stats (all_stats tx.inserted))

  pub commit_tx-access : (commit_tx db tx).access ≡ tx.access
  unfolding commit_tx write_traffic
  commit_tx-access = (write_traffic_values-kept (collect tx.inserted []) _).1

  pub commit_tx-last_seq : (commit_tx db tx).last_seq ≡ tx.last_seq
  unfolding commit_tx write_traffic
  commit_tx-last_seq = write_traffic_values-last_seq (collect tx.inserted []) _

  pub commit_tx-ack : (commit_tx db tx).ack ≡ db.ack
  unfolding commit_tx write_traffic
  commit_tx-ack = write_traffic_values-ack (collect tx.inserted []) _

  pub sum_buckets-commit_tx :
      (k : TrafficKey)
      → sum_buckets k (commit_tx db tx).buckets
        ≡ add_stats (sum_buckets k db.buckets) (shares k tx.inserted)
  unfolding commit_tx
  sum_buckets-commit_tx k = sum_buckets-write_traffic k tx.inserted _
