-- ===== src/Client/Queries/Listings.antt =====
-- The listings of names and the listings of values agree.
use girc.Prelude.{
  ◌≡◌, refl, ap, ◌∙◌, false, List, [], ◌∷◌, map, Bytes, string_lt, insert_sorted, sort_strings, ok,
  ◌>>=◌, Bool-cases, inl, inr,
}
use girc.Tracker.{State}
use girc.Client.Queries.{insert_by, sort_by, tracking, channel_list, user_list, channels, users}

map-insert_by {ℓ} :
    {A : Type ℓ} (key : A → Bytes) (a : A) (l : List A)
    → map key (insert_by key a l) ≡ insert_sorted (key a) (map key l)
unfolding insert_by insert_sorted
map-insert_by key a [] = refl
map-insert_by key a (b ∷ l) = elim (Bool-cases (string_lt (key b) (key a))) [
  | inl e ↦ rw e (ap (◌∷◌ (key b)) (map-insert_by key a l))
  | inr e ↦ rw e refl
]

map-sort_by {ℓ} :
    {A : Type ℓ} (key : A → Bytes) (l : List A) → map key (sort_by key l) ≡ sort_strings (map key l)
unfolding sort_by sort_strings
map-sort_by key [] = refl
map-sort_by key (a ∷ l) =
    map-insert_by key a (sort_by key l) ∙ ap (insert_sorted (key a)) (map-sort_by key l)

map-map {ℓ} :
    {A : Type ℓ} (f : Bytes × A → A) (g : A → Bytes) (l : List (Bytes × A))
    → map g (map f l) ≡ map (λ e. g (f e)) l
map-map f g [] = refl
map-map f g (e ∷ l) = ap (◌∷◌ (g (f e))) (map-map f g l)

-- With tracking, ChannelList is the names of Channels, in its order, and UserList the nicknames
-- of Users.
pub listings_agree :
    (s : State)
    → ((channels false s >>= λ cs. ok (map (λ ch. ch.name) cs)) ≡ channel_list false s)
      × ((users false s >>= λ us. ok (map (λ u. u.nick) us)) ≡ user_list false s)
unfolding channels channel_list users user_list tracking
listings_agree s = (
  ap ok (
      map-sort_by (λ ch. ch.name) (map (λ e. e.1) s.channels)
      ∙ ap sort_strings (map-map (λ e. e.1) (λ ch. ch.name) s.channels)),
  ap ok (
      map-sort_by (λ u. u.nick) (map (λ e. e.1) s.users)
      ∙ ap sort_strings (map-map (λ e. e.1) (λ u. u.nick) s.users)),
)
