-- ===== src/Messenger/Kinds.antt =====
-- The view types of Delta Chat against the media types of the filters.
use patrizio_bot.Prelude.{
  ◌≡◌, ◌≢◌, [], refl, sym, ap, ◌∙◌, Bool, true, false, Option, none, some, if◌then◌else◌,
}
use patrizio_bot.Text.{Text, text_eq}
use patrizio_bot.Text.Laws.{text_eq_iff}
use patrizio_bot.Messenger.{
  ViewType, view_image, view_sticker, view_gif, view_video, view_other, map_view_type_to_media_type,
  map_media_type_to_view_type, media_type_image, media_type_sticker, media_type_gif,
  media_type_video,
}

-- A view type that a filter can answer with.
abbrev pub sendable : ViewType → Option ViewType
sendable view_other = none
sendable view_image = some view_image
sendable view_sticker = some view_sticker
sendable view_gif = some view_gif
sendable view_video = some view_video

to_media_and_back :
    (v : ViewType) → map_media_type_to_view_type (map_view_type_to_media_type v) ≡ sendable v
unfolding map_view_type_to_media_type map_media_type_to_view_type
to_media_and_back view_image = refl
to_media_and_back view_sticker = refl
to_media_and_back view_gif = refl
to_media_and_back view_video = refl
to_media_and_back view_other = refl

or_to_media : Option ViewType → Text
or_to_media none = []
or_to_media (some v) = map_view_type_to_media_type v

none-ne-some : {v : ViewType} → ◌≢◌ {A = Option ViewType} none (some v)
none-ne-some e = cc

-- The tests in their order.
first_of : (kind : Text) (i s g v : Bool) → Option ViewType
first_of kind i s g v =
    if i
    then some view_image
    else if s
    then some view_sticker
    else if g
    then some view_gif
    else if v
    then some view_video
    else none

first_of-media :
    (kind : Text) (i s g v : Bool) (w : ViewType)
    → text_eq kind media_type_image ≡ i
    → text_eq kind media_type_sticker ≡ s
    → text_eq kind media_type_gif ≡ g
    → text_eq kind media_type_video ≡ v
    → first_of kind i s g v ≡ some w
    → map_view_type_to_media_type w ≡ kind
unfolding map_view_type_to_media_type first_of or_to_media
first_of-media kind true s g v w hi hs hg hv h =
    sym (ap or_to_media h) ∙ sym ((text_eq_iff kind media_type_image).0 hi)
first_of-media kind false true g v w hi hs hg hv h =
    sym (ap or_to_media h) ∙ sym ((text_eq_iff kind media_type_sticker).0 hs)
first_of-media kind false false true v w hi hs hg hv h =
    sym (ap or_to_media h) ∙ sym ((text_eq_iff kind media_type_gif).0 hg)
first_of-media kind false false false true w hi hs hg hv h =
    sym (ap or_to_media h) ∙ sym ((text_eq_iff kind media_type_video).0 hv)
first_of-media kind false false false false w hi hs hg hv h = absurd (none-ne-some h)

-- The view type of a message, as a media type and back, is the same one if a filter can answer with it,
-- and no view type otherwise; and a media type that is sent as some view type is the media type of that
-- view type.
pub map_media_type_to_view_type-map_view_type_to_media_type :
    (v w : ViewType) (kind : Text)
    → map_media_type_to_view_type kind ≡ some w
    → (map_media_type_to_view_type (map_view_type_to_media_type v) ≡ sendable v)
      × (map_view_type_to_media_type w ≡ kind)
unfolding map_media_type_to_view_type first_of
map_media_type_to_view_type-map_view_type_to_media_type v w kind h =
    (to_media_and_back v, first_of-media kind _ _ _ _ w refl refl refl refl h)
