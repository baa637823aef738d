-- ===== src/Index/Feeds/Frame.antt =====
-- The operations on a feed leave the other rows of the table alone.
use glite_jp.Base.{
  ℕ, zero, suc, [], ◌∷◌, Bytes, Bool, true, false, Option, some, none, ◌==◌, if◌then◌else◌, List,
  ◌≡◌, ◌≢◌, refl, ap, ◌∙◌, arith, Bool-cases, inl, inr,
}
use glite_jp.Base.Act
use glite_jp.Base.Act.{after, ◌>>=◌, ◌>>◌, give, Keeps}
use glite_jp.Index.Feeds.Table.{
  FeedRow, IndexDb, Run, has_id, first, update, update_row, update_rows, failing, remaining,
  is_taken, init_row, unless_taken,
}
use glite_jp.Index.Feeds.{
  init_feed, unlock_feed, store_answer, Answer, no_credentials, refused, accepted, ConfFeed,
  call_index, found_index, find_dest_index, my_feed_index, has_credentials, my_feed_refresh,
  until_done, attempts, give_up, unless_done, call_storage, handle_feed, try_reconnect_feed,
  destroy_try_reconnect_feed, has_error,
}

unfoldable pub row_of : ℕ → List FeedRow → Option FeedRow
row_of id [] = none
row_of id (r ∷ rs) = if id == r.uniqueid then some r else row_of id rs

abbrev pub ids : List FeedRow → List ℕ
ids [] = []
ids (r ∷ rs) = r.uniqueid ∷ ids rs

-- The same rows stand in the table, and only the one with this number may differ.
abbrev pub Only : ℕ → IndexDb → IndexDb → Type 0
Only id s t = (ids t.feeds ≡ ids s.feeds) × ((u : ℕ) → id ≢ u → row_of u t.feeds ≡ row_of u s.feeds)

pub Only-trans : (id : ℕ) (s t u : IndexDb) → Only id s t → Only id t u → Only id s u
Only-trans id s t u (e, h) (f, k) = (f ∙ e, λ v n. k v n ∙ h v n)

pub Only-bind :
    {A : Type 0} {B : Type 0} (id : ℕ) (m : Run A) (f : A → Run B)
    → Keeps (Only id) m
    → ((a : A) → Keeps (Only id) (f a))
    → Keeps (Only id) (m >>= f)
Only-bind id m f h k = Act.Keeps-bind (Only id) m f (Only-trans id) h k

-- An update keeps the numbers, and finds only rows with this number.
abbrev pub Targets : ℕ → (FeedRow → Bool) → (FeedRow → FeedRow) → Type 0
Targets id p f = (r : FeedRow) → (p r ≡ true → r.uniqueid ≡ id) × ((f r).uniqueid ≡ r.uniqueid)

update_row-uniqueid :
    (p : FeedRow → Bool) (f : FeedRow → FeedRow) (r : FeedRow)
    → (f r).uniqueid ≡ r.uniqueid
    → (update_row p f r).uniqueid ≡ r.uniqueid
update_row-uniqueid p f r e = elim (Bool-cases (p r)) [ inl q ↦ rw q e | inr q ↦ rw q refl ]

pub ids-update_rows :
    (p : FeedRow → Bool) (f : FeedRow → FeedRow) (rs : List FeedRow)
    → ((r : FeedRow) → (f r).uniqueid ≡ r.uniqueid)
    → ids (update_rows p f rs) ≡ ids rs
unfolding update_rows
ids-update_rows p f [] h = refl
ids-update_rows p f (r ∷ rs) h = cc (update_row-uniqueid p f r (h r), ids-update_rows p f rs h)

row_of-update_rows :
    (id u : ℕ) (p : FeedRow → Bool) (f : FeedRow → FeedRow) (rs : List FeedRow)
    → Targets id p f
    → id ≢ u
    → row_of u (update_rows p f rs) ≡ row_of u rs
unfolding update_rows row_of
row_of-update_rows id u p f [] h n = refl
row_of-update_rows id u p f (r ∷ rs) h n = elim (Bool-cases (p r)) [
  | inl q ↦ rw q (ground (arith, (h r).0 q, (h r).1, row_of-update_rows id u p f rs h n))
  | inr q ↦ rw q (
      ap (λ (o : Option FeedRow). if u == r.uniqueid then some r else o)
        (row_of-update_rows id u p f rs h n))
]

pub Only-update_rows :
    (id : ℕ) (p : FeedRow → Bool) (f : FeedRow → FeedRow) (s : IndexDb) (l : List Bool)
    → Targets id p f
    → Only id s (record { feeds = update_rows p f s.feeds; outages = l })
Only-update_rows id p f s l h =
    (ids-update_rows p f s.feeds (λ r. (h r).1), λ u n. row_of-update_rows id u p f s.feeds h n)

pub Only-update :
    (id : ℕ) (p : FeedRow → Bool) (f : FeedRow → FeedRow)
    → Targets id p f
    → Keeps (Only id) (update p f)
unfolding update
Only-update id p f h s = elim (Bool-cases (failing s.outages)) [
  | inl q ↦ rw q (refl, λ u n. refl)
  | inr q ↦ rw q (Only-update_rows id p f s (remaining s.outages) h)
]

pub Only-give : {A : Type 0} (id : ℕ) (a : A) → Keeps (Only id) (give a)
Only-give id a s = (refl, λ u n. refl)

pub Only-if :
    {A : Type 0} (id : ℕ) (b : Bool) (m n : Run A)
    → Keeps (Only id) m
    → Keeps (Only id) n
    → Keeps (Only id) (λ s. if b then m s else n s)
Only-if id true m n h k = h
Only-if id false m n h k = k

has_id_target : (id : ℕ) (r : FeedRow) → has_id id r ≡ true → r.uniqueid ≡ id
has_id_target id r h = ground arith

Only-unless_taken :
    (id : ℕ) (o : Option FeedRow) (m : Run (Option ℕ))
    → Keeps (Only id) m
    → Keeps (Only id) (unless_taken o m)
Only-unless_taken id none m h = h
Only-unless_taken id (some r) m h = λ s. (refl, λ u n. refl)

Only-init_row : (id : ℕ) (f : Bytes) (e n : ℕ) → Keeps (Only id) (init_row id f e n)
unfolding init_row
Only-init_row id f e n s =
    Only-unless_taken id (first (is_taken id f) s.feeds) (update (has_id id) _)
      (Only-update id (has_id id) _ λ r. (has_id_target id r, refl)) s

Only-unlock_feed : (id : ℕ) → Keeps (Only id) (unlock_feed id)
unfolding unlock_feed
Only-unlock_feed id =
    Only-bind id (update (has_id id) _) _
      (Only-update id (has_id id) _ λ r. (has_id_target id r, refl)) λ n. Only-give {A = ℕ} id 0

Only-store_answer : (now id : ℕ) (f : Bytes) (e n : ℕ) → Keeps (Only id) (store_answer now id f e n)
unfolding store_answer init_feed
Only-store_answer now id f e n =
    Only-bind id _ _
      (Only-bind id (init_row id f _ n) _ (Only-init_row id f _ n) λ c. Only-give {A = ℕ} id 0)
      λ c. Only-bind id (unlock_feed id) _ (Only-unlock_feed id) λ d. Only-give {A = ℕ} id 0

Only-call_index : (f : ConfFeed) (a : Answer) (now id : ℕ) → Keeps (Only id) (call_index f a now id)
Only-call_index f no_credentials now id = Only-give {A = ℕ} id 0
Only-call_index f refused now id =
    Only-bind id (unlock_feed id) _ (Only-unlock_feed id) λ n. Only-give {A = ℕ} id 0
Only-call_index f (accepted g e) now id = Only-store_answer now id g e _

Only-found_index :
    (o : Option ConfFeed) (a : Answer) (now id : ℕ) → Keeps (Only id) (found_index o a now id)
Only-found_index none a now id = Only-give {A = ℕ} id 0
Only-found_index (some f) a now id =
    Only-if id f.converts _ (give 22) (Only-call_index f a now id) (Only-give {A = ℕ} id 0)

Only-my_feed_index :
    (conf : List ConfFeed) (a : Answer) (now id : ℕ) → Keeps (Only id) (my_feed_index conf a now id)
Only-my_feed_index conf a now id =
    Only-if id (has_credentials a) _ (give 22) (Only-found_index (find_dest_index conf id) a now id)
      (Only-give {A = ℕ} id 0)

Only-my_feed_refresh :
    (a : Answer) (now : ℕ) (r : FeedRow) → Keeps (Only r.uniqueid) (my_feed_refresh a now r)
Only-my_feed_refresh no_credentials now r = Only-give {A = ℕ} r.uniqueid 0
Only-my_feed_refresh refused now r =
    Only-bind r.uniqueid (unlock_feed r.uniqueid) _ (Only-unlock_feed r.uniqueid)
      λ n. Only-give {A = ℕ} r.uniqueid 0
Only-my_feed_refresh (accepted g e) now r = Only-store_answer now r.uniqueid _ e _

Only-call_storage :
    (conf : List ConfFeed) (calls : ℕ → Answer) (b : Bool) (now : ℕ) (r : FeedRow) (i : ℕ)
    → Keeps (Only r.uniqueid) (call_storage conf calls b now r i)
Only-call_storage conf calls false now r i = Only-my_feed_index conf (calls i) now r.uniqueid
Only-call_storage conf calls true now r i = Only-my_feed_refresh (calls i) now r

Only-until_done : (id e : ℕ) (m : Run Bool) → Keeps (Only id) m → Keeps (Only id) (until_done e m)
Only-until_done id zero m h = Only-give id true
Only-until_done id (suc e) m h = h

Only-attempts :
    (id n i : ℕ) (f : ℕ → Run ℕ)
    → ((j : ℕ) → Keeps (Only id) (f j))
    → Keeps (Only id) (attempts n i f)
unfolding attempts
Only-attempts id zero i f h = Only-give id false
Only-attempts id (suc n) i f h =
    Only-bind id (f i) _ (h i)
      λ e. Only-until_done id e (attempts n (suc i) f) (Only-attempts id n (suc i) f h)

Only-try : (id t n : ℕ) → Keeps (Only id) (try_reconnect_feed id t n)
unfolding try_reconnect_feed
Only-try id t n =
    Only-bind id (update (has_id id) _) _
      (Only-update id (has_id id) _ λ r. (has_id_target id r, refl)) λ c. Only-give {A = ℕ} id 0

Only-destroy : (id t : ℕ) → Keeps (Only id) (destroy_try_reconnect_feed id t)
unfolding destroy_try_reconnect_feed
Only-destroy id t =
    Only-bind id (update (has_id id) _) _
      (Only-update id (has_id id) _ λ r. (has_id_target id r, refl)) λ c. Only-give {A = ℕ} id 0

Only-give_up : (b : Bool) (now : ℕ) (r : FeedRow) → Keeps (Only r.uniqueid) (give_up b now r)
Only-give_up false now r = Only-try r.uniqueid _ _
Only-give_up true now r =
    Only-if r.uniqueid (has_error r.state) _ _ (Only-destroy r.uniqueid _) (Only-try r.uniqueid _ _)

Only-unless_done :
    (id : ℕ) (b : Bool) (m : Run ℕ) → Keeps (Only id) m → Keeps (Only id) (unless_done b m)
Only-unless_done id true m h = Only-give {A = ℕ} id 0
Only-unless_done id false m h = h

pub Only-handle_feed :
    (conf : List ConfFeed) (calls : ℕ → Answer) (b : Bool) (now : ℕ) (r : FeedRow)
    → Keeps (Only r.uniqueid) (handle_feed conf calls b now r)
unfolding handle_feed
Only-handle_feed conf calls b now r =
    Only-bind r.uniqueid (attempts 10 0 (call_storage conf calls b now r)) _
      (Only-attempts r.uniqueid 10 0 (call_storage conf calls b now r)
        (Only-call_storage conf calls b now r))
      λ d. Only-unless_done r.uniqueid d _ (Only-give_up b now r)
