-- ===== src/Names/Spelling.antt =====
-- What spellings of a name the API of src/domain.rs accepts.
use harmonixia_server.Prelude.{ℕ, ◌+◌, ◌≤◌, List, [], ◌∷◌, some, ◌≡◌, ◌⊎◌, refl, arith}
use harmonixia_server.Playback.Types.{
  PlaybackItemType, track, episode, PlaybackContextType, album, playlist, podcast,
}
use harmonixia_server.Providers.Backoff.{
  ProviderKind, music_brainz, cover_art_archive, discogs, fanart_tv, the_audio_db, local_sidecars,
}
use harmonixia_server.Media.Paths.{AacTranscodeProfile, mobile, standard, high, api_name}
use harmonixia_server.Names.Api.{
  normalized, item_type_api_name, item_type_from_str, context_type_api_name, context_type_from_str,
  profile_from_str, provider_api_name, provider_from_str, parse_media_item_type,
}

-- A text that is a name up to capital letters and `-` in the place of `_`.
abbrev pub Spells : List ℕ → List ℕ → Type 0
Spells [] [] = Unit {0}
Spells [] (d ∷ name) = ⊥
Spells (c ∷ s) [] = ⊥
Spells (c ∷ s) (d ∷ name) =
    ((c ≡ d) ⊎ (((b'A' ≤ c) × (c ≤ b'Z') × (c + 32 ≡ d)) ⊎ ((c ≡ b'-') × (d ≡ b'_'))))
    × Spells s name

normalized-Spells : (s name : List ℕ) → Spells s name → normalized s ≡ normalized name
normalized-Spells [] [] h = refl
normalized-Spells [] (d ∷ name) h = absurd h
normalized-Spells (c ∷ s) [] h = absurd h
normalized-Spells (c ∷ s) (d ∷ name) h = rw (normalized-Spells s name h.1) (ground (arith, h.0))

-- A value that a request may name.
pub data Named : Type 0 where
  item : PlaybackItemType → Named
  context : PlaybackContextType → Named
  profile : AacTranscodeProfile → Named
  provider : ProviderKind → Named

abbrev pub name_of : Named → List ℕ
name_of (item x) = item_type_api_name x
name_of (context x) = context_type_api_name x
name_of (profile x) = api_name x
name_of (provider x) = provider_api_name x

abbrev pub IsRead : List ℕ → Named → Type 0
IsRead s (item x) = (item_type_from_str s ≡ some x) × (parse_media_item_type s ≡ some x)
IsRead s (context x) = context_type_from_str s ≡ some x
IsRead s (profile x) = profile_from_str s ≡ some x
IsRead s (provider x) = provider_from_str s ≡ some x

-- The API name of a value, in any capitals and with `-` for any `_`, is read as that value, also as the
-- item type of a media request.
pub Spells-IsRead : (s : List ℕ) (v : Named) → Spells s (name_of v) → IsRead s v
unfolding item_type_api_name item_type_from_str context_type_api_name context_type_from_str api_name
    profile_from_str provider_api_name provider_from_str parse_media_item_type
Spells-IsRead s (item track) h =
    let same = normalized-Spells s _ h in (rw same refl, rw same (rw same refl))
Spells-IsRead s (item episode) h =
    let same = normalized-Spells s _ h in (rw same refl, rw same (rw same refl))
Spells-IsRead s (context album) h = rw (normalized-Spells s _ h) refl
Spells-IsRead s (context playlist) h = rw (normalized-Spells s _ h) refl
Spells-IsRead s (context podcast) h = rw (normalized-Spells s _ h) refl
Spells-IsRead s (profile mobile) h = rw (normalized-Spells s _ h) refl
Spells-IsRead s (profile standard) h = rw (normalized-Spells s _ h) refl
Spells-IsRead s (profile high) h = rw (normalized-Spells s _ h) refl
Spells-IsRead s (provider music_brainz) h = rw (normalized-Spells s _ h) refl
Spells-IsRead s (provider cover_art_archive) h = rw (normalized-Spells s _ h) refl
Spells-IsRead s (provider discogs) h = rw (normalized-Spells s _ h) refl
Spells-IsRead s (provider fanart_tv) h = rw (normalized-Spells s _ h) refl
Spells-IsRead s (provider the_audio_db) h = rw (normalized-Spells s _ h) refl
Spells-IsRead s (provider local_sidecars) h = rw (normalized-Spells s _ h) refl
