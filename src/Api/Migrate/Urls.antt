-- ===== src/Api/Migrate/Urls.antt =====
-- The two URLs that the migrations use.
use reimbursement_analyzer.Prelude
use reimbursement_analyzer.Prelude.{String, ◌≡◌, refl, sym, ap, ◌∙◌, List, [], ◌∷◌}
use reimbursement_analyzer.World.{Result, ok, raised}
use reimbursement_analyzer.Api.Migrate.{
  partition, base_of, dsn_body, with_scheme, backend_url, connection_url,
}

module _ (repr : String → String) where
  body-connection :
      (rest : String) → dsn_body repr (Prelude.Text.append "postgresql://" rest) ≡ ok rest
  unfolding dsn_body Prelude.Text.append partition
  body-connection rest = refl

  body-backend :
      (rest : String) → dsn_body repr (Prelude.Text.append "postgresql+psycopg://" rest) ≡ ok rest
  unfolding dsn_body Prelude.Text.append partition base_of
  body-backend rest = refl

  -- The URLs for the two drivers name the same database: from either of them, both are made again,
  -- as from the URL that was given.
  pub urls-again :
      (url connection backend : String)
      → connection_url repr url ≡ ok connection
      → backend_url repr url ≡ ok backend
      → (connection_url repr connection ≡ ok connection)
        × (backend_url repr connection ≡ ok backend)
        × (connection_url repr backend ≡ ok connection)
        × (backend_url repr backend ≡ ok backend)
  unfolding connection_url backend_url
  urls-again url connection backend = go (dsn_body repr url)
    where
      go :
          (r : Result String)
          → with_scheme "postgresql://" r ≡ ok connection
          → with_scheme "postgresql+psycopg://" r ≡ ok backend
          → (with_scheme "postgresql://" (dsn_body repr connection) ≡ ok connection)
            × (with_scheme "postgresql+psycopg://" (dsn_body repr connection) ≡ ok backend)
            × (with_scheme "postgresql://" (dsn_body repr backend) ≡ ok connection)
            × (with_scheme "postgresql+psycopg://" (dsn_body repr backend) ≡ ok backend)
      go (raised e) c b = cc
      go (ok rest) c b =
          let c' : Prelude.Text.append "postgresql://" rest ≡ connection = cc in
          let b' : Prelude.Text.append "postgresql+psycopg://" rest ≡ backend = cc in
          rw (sym c', sym b', body-connection, body-backend) (refl, refl, refl, refl)
