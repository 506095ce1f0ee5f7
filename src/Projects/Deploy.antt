-- ===== src/Projects/Deploy.antt =====
-- What the button `Deploy Project` does.
use p2ser.Base.{
  All, ◌∙◌, ◌≡◌, refl, arith, List, [], ◌∷◌, none, true, false, Bool, inl, inr, Bool-cases, ◌⊎◌,
  ◌||◌, ◌&&◌, not, ℕ,
}
use p2ser.Api.{Reply}
use p2ser.Projects.Edits.{
  Input, set_title, set_mode, set_env_vars, set_dir, set_git_url, set_branch, files_chosen,
  dialog_shown, edit_page, edit_pages,
}
use p2ser.Projects.{
  Upload, Page, Effect, alert, send, Engine, finish, deploy, deploy_repository, deploy_folder,
  send_archive, is_git, has_compose, truthy_option, choose_files,
}
use p2ser.Text.{Text}

-- Whether a request is among the effects.
abbrev pub sends : List Effect → Bool
sends [] = false
sends (send r ∷ es) = true
sends (alert t ∷ es) = sends es

-- The environment variables are not typed into.
abbrev pub KeepsEnv : Input → Type 0
KeepsEnv (set_env_vars v) = ⊥
KeepsEnv _ = Unit

module _ (engine : Engine) where
  IsOutcome : Page → Page → Page → Type 0
  IsOutcome p q q' = (q ≡ q') × ((q ≡ p) ⊎ (q ≡ finish engine p))

  repository-reply :
      (p : Page) (r r' : Reply)
      → IsOutcome p (deploy_repository engine p r).0 (deploy_repository engine p r').0
  unfolding IsOutcome deploy_repository
  repository-reply p r r' = elim (Bool-cases (truthy_option p.form.git_url)) [
    | inl e ↦ rw e (refl, inr refl)
    | inr e ↦ rw e (refl, inl refl)
  ]

  folder-reply :
      (p : Page) (files : List Upload) (r r' : Reply)
      → IsOutcome p (deploy_folder engine p files r).0 (deploy_folder engine p files r').0
  unfolding IsOutcome deploy_folder
  folder-reply p [] r r' = (refl, inl refl)
  folder-reply p (f ∷ fs) r r' = elim (Bool-cases (has_compose (f ∷ fs))) [
    | inl e ↦ rw e (refl, inr refl)
    | inr e ↦ rw e (refl, inl refl)
  ]

  -- The page after the click is the page before it or the finished one, and does not depend on the
  -- answer of the cluster: a project that was refused is listed all the same, and the form is
  -- cleared.
  pub deploy-reply :
      (p : Page) (r r' : Reply)
      → ((deploy engine p r).0 ≡ (deploy engine p r').0)
        × (((deploy engine p r).0 ≡ p) ⊎ ((deploy engine p r).0 ≡ finish engine p))
  unfolding IsOutcome deploy
  deploy-reply p r r' = elim (Bool-cases (is_git engine p.form.mode)) [
    | inl e ↦ rw e (repository-reply p r r')
    | inr e ↦ rw e (folder-reply p p.files r r')
  ]

  folder_invalid :
      (p : Page) (files : List Upload) (r : Reply)
      → has_compose files ≡ false
      → ((deploy_folder engine p files r).0 ≡ p)
        × (sends (deploy_folder engine p files r).1 ≡ false)
  unfolding deploy_folder
  folder_invalid p [] r h = (refl, refl)
  folder_invalid p (f ∷ fs) r h = rw h (refl, refl)

  -- A click that sends nothing because of a missing address, folder or compose file leaves the page
  -- as it is.
  pub deploy_invalid :
      (p : Page) (r : Reply)
      → (is_git engine p.form.mode && not (truthy_option p.form.git_url)
          || not (is_git engine p.form.mode) && not (has_compose p.files))
        ≡ true
      → ((deploy engine p r).0 ≡ p) × (sends (deploy engine p r).1 ≡ false)
  unfolding deploy deploy_repository
  deploy_invalid p r h = elim (Bool-cases (is_git engine p.form.mode)) [
    | inl e ↦ elim (Bool-cases (truthy_option p.form.git_url)) [
      | inl f ↦ absurd (ground arith)
      | inr f ↦ rw (e, f) (refl, refl)
    ]
    | inr e ↦ rw e (folder_invalid p p.files r (ground arith))
  ]

  repository_finished :
      (p : Page) (r : Reply)
      → sends (deploy_repository engine p r).1 ≡ true
      → (deploy_repository engine p r).0 ≡ finish engine p
  unfolding deploy_repository
  repository_finished p r h = elim (Bool-cases (truthy_option p.form.git_url)) [
    | inl e ↦ rw e
    | inr e ↦ absurd (cc (rw e at h))
  ]

  folder_finished :
      (p : Page) (files : List Upload) (r : Reply)
      → sends (deploy_folder engine p files r).1 ≡ true
      → (deploy_folder engine p files r).0 ≡ finish engine p
  unfolding deploy_folder
  folder_finished p [] r h = absurd (cc)
  folder_finished p (f ∷ fs) r h = elim (Bool-cases (has_compose (f ∷ fs))) [
    | inl e ↦ rw e
    | inr e ↦ absurd (cc (rw e at h))
  ]

  sends_finished :
      (p : Page) (r : Reply)
      → sends (deploy engine p r).1 ≡ true
      → (deploy engine p r).0 ≡ finish engine p
  unfolding deploy
  sends_finished p r h = elim (Bool-cases (is_git engine p.form.mode)) [
    | inl e ↦ rw e (repository_finished p r (rw e at h))
    | inr e ↦ rw e (folder_finished p p.files r (rw e at h))
  ]

  folder_sends_nothing :
      (p : Page) (files : List Upload) (r : Reply)
      → p.form.env_vars ≡ none
      → sends (deploy_folder engine p files r).1 ≡ false
  unfolding deploy_folder send_archive
  folder_sends_nothing p [] r h = refl
  folder_sends_nothing p (f ∷ fs) r h = elim (Bool-cases (has_compose (f ∷ fs))) [
    | inl e ↦ rw (e, h)
    | inr e ↦ rw e
  ]

  edit_page_env :
      (show : ℕ → Text) (p : Page) (e : Input)
      → KeepsEnv e
      → (edit_page show p e).form.env_vars ≡ p.form.env_vars
  unfolding edit_page choose_files
  edit_page_env show p (set_title v) h = refl
  edit_page_env show p (set_mode v) h = refl
  edit_page_env show p (set_env_vars v) h = absurd h
  edit_page_env show p (set_dir v) h = refl
  edit_page_env show p (set_git_url v) h = refl
  edit_page_env show p (set_branch v) h = refl
  edit_page_env show p (files_chosen []) h = refl
  edit_page_env show p (files_chosen (f ∷ fs)) h = refl
  edit_page_env show p (dialog_shown b) h = refl

  edit_pages_env :
      (show : ℕ → Text) (p : Page) (es : List Input)
      → All KeepsEnv es
      → (edit_pages show p es).form.env_vars ≡ p.form.env_vars
  unfolding edit_pages
  edit_pages_env show p [] h = refl
  edit_pages_env show p (e ∷ es) (k, h) =
      edit_pages_env show (edit_page show p e) es h ∙ edit_page_env show p e k

  finish_env : (p : Page) → (finish engine p).form.env_vars ≡ none
  unfolding finish
  finish_env p = refl

  deploy_without_env :
      (p : Page) (r : Reply)
      → is_git engine p.form.mode ≡ false
      → p.form.env_vars ≡ none
      → sends (deploy engine p r).1 ≡ false
  unfolding deploy
  deploy_without_env p r g h = rw g (folder_sends_nothing p p.files r h)

  -- After a deploy that sent its request, no folder is uploaded, whatever is put into the dialog but
  -- environment variables: the form that the handler leaves has no `envVars`, and packing fails on
  -- it.
  pub deploy_twice :
      (p : Page) (r r' : Reply) (show : ℕ → Text) (es : List Input)
      → sends (deploy engine p r).1 ≡ true
      → All KeepsEnv es
      → is_git engine (edit_pages show (deploy engine p r).0 es).form.mode ≡ false
      → sends (deploy engine (edit_pages show (deploy engine p r).0 es) r').1 ≡ false
  deploy_twice p r r' show es h k g =
      deploy_without_env (edit_pages show (deploy engine p r).0 es) r' g (
        edit_pages_env show (deploy engine p r).0 es k ∙ (rw (sends_finished p r h) (finish_env p)))
