-- ===== src/Names/Tests.antt =====
-- Names at concrete texts.
use harmonixia_server.Prelude.{◌≡◌, refl, inl, inr, none, arith}
use harmonixia_server.Prelude.Text.{codes}
use harmonixia_server.Providers.Backoff.{fanart_tv}
use harmonixia_server.Names.Api.{provider_api_name}
use harmonixia_server.Names.Stored.{parse_import_job_kind}
use harmonixia_server.Names.Spelling.{IsRead, provider, Spells, Spells-IsRead}

-- A stored text is compared as it is.
capitals_unread : parse_import_job_kind (codes "Full_Rescan") ≡ none
unfolding parse_import_job_kind
capitals_unread = refl

fanart : Spells (codes "fanart-Tv") (provider_api_name fanart_tv)
unfolding provider_api_name
fanart = (
  inl refl,
  (
    inl refl,
    (
      inl refl,
      (
        inl refl,
        (
          inl refl,
          (
            inl refl,
            (inr (inr (refl, refl)), (inr (inl (omega arith, omega arith, refl)), (inl refl, tt))),
          ),
        ),
      ),
    ),
  ),
)

Spells-IsRead_example : IsRead (codes "fanart-Tv") (provider fanart_tv)
Spells-IsRead_example = Spells-IsRead (codes "fanart-Tv") (provider fanart_tv) fanart
