-- ===== src/Projects.antt =====
-- The project dialog of `App`: the form, and the handler of the button `Deploy Project`.
pub mod Archive
pub mod Deploy
pub mod Edits
use p2ser.Base.{
  ℕ, zero, suc, ◌+◌, Bool, true, false, not, ◌&&◌, ◌||◌, List, [], ◌∷◌, ◌++◌, Option, none, some,
  if◌then◌else◌, length,
}
use p2ser.Api.{Reply, response, failure}
use p2ser.Converter.EnvText.{git_env}
use p2ser.Dashboard.{Project, or_text}
use p2ser.Dict.{Dict}
use p2ser.Text.{Text, codes, truthy_text, trim, split_parts, equal}

-- A file of the chosen folder.
pub record Upload : Type 0 where
  pub name : Text
  pub path : Text

-- `newProjectForm`; a field that the object lacks is `undefined`.
pub record Form : Type 0 where
  pub title : Option Text
  pub git_url : Option Text
  pub branch : Option Text
  pub env_vars : Option Text
  pub mode : Option Text
  pub dir : Option Text
  pub cpu : Option Text
  pub ram : Option Text
  pub storage : Option Text
  pub replicas : Option Text

abbrev pub first_form : Form
first_form = record {
  title = some [];
  git_url = some [];
  branch = some (codes "main");
  env_vars = some [];
  mode = some (codes "folder");
  dir = none;
  cpu = none;
  ram = none;
  storage = none;
  replicas = none;
}

-- What the handler puts in its place when it is done.
abbrev pub next_form : Form
next_form = record {
  title = some [];
  git_url = none;
  branch = none;
  env_vars = none;
  mode = none;
  dir = some [];
  cpu = some (codes "1");
  ram = some (codes "2");
  storage = some (codes "10");
  replicas = some (codes "1");
}

pub record Page : Type 0 where
  pub form : Form
  pub files : List Upload
  pub show_modal : Bool
  pub projects : List Project

-- The requests of the dialog: a repository, or an archive of paths and files with its `.env`.
pub data Request : Type 0 where
  deploy_git : Text → Text → Option Text → Dict Text → Request
  upload : Text → List (Text × Upload) → Option Text → Request

-- What the user and the network see, in order.
pub data Effect : Type 0 where
  alert : Text → Effect
  send : Request → Effect

-- `newProjectForm.x || d`
abbrev pub field_or : Option Text → Text → Text
field_or = or_text

abbrev pub truthy_option : Option Text → Bool
truthy_option none = false
truthy_option (some s) = truthy_text s

-- `x + ' Cores'`, with `undefined` as a text
unfoldable pub shown : Option Text → Text
shown none = codes "undefined"
shown (some s) = s

-- `s.substring(n)`
unfoldable pub substring : ℕ → Text → Text
substring zero s = s
substring (suc n) [] = []
substring (suc n) (c ∷ s) = substring n s

-- `path.split('/')[0]`
abbrev pub root_of : Text → Text
root_of path = (split_parts b'/' path).0

unfoldable pub is_compose : Upload → Bool
is_compose f =
    equal f.name (codes "docker-compose.yml") || equal f.name (codes "docker-compose.yaml")

unfoldable pub has_compose : List Upload → Bool
has_compose [] = false
has_compose (f ∷ fs) = is_compose f || has_compose fs

-- The entries of the archive: paths without the folder in front, none for an empty path.
unfoldable pub archive : ℕ → List Upload → List (Text × Upload)
archive skip [] = []
archive skip (f ∷ fs) =
    let path = substring skip f.path in
    let rest = archive skip fs in if truthy_text path then (path, f) ∷ rest else rest

unfoldable pub archive_of : List Upload → List (Text × Upload)
unfolding archive
archive_of [] = []
archive_of (f ∷ fs) = archive (length (root_of f.path) + 1) (f ∷ fs)

unfoldable pub git_answer : Reply → Text
git_answer (response true txt) = codes "Deployment from Git successful!"
git_answer (response false txt) = codes "Deployment from Git failed: " ++ txt
git_answer (failure why) = codes "Error: " ++ why

unfoldable pub upload_answer : Reply → Text
upload_answer (response true txt) = codes "Folder uploaded and deployment successful!"
upload_answer (response false txt) = codes "Deployment failed: " ++ txt
upload_answer (failure why) = codes "Error during packaging: " ++ why

-- The time, and the engine's message for a property of `undefined`.
pub record Engine : Type 0 where
  pub now : Text
  pub undefined_trim : Text

-- The input `Browse OS`: an empty choice changes nothing. The count is shown by the engine.
unfoldable pub choose_files : (ℕ → Text) → Page → List Upload → Page
choose_files show p [] = p
choose_files show p (f ∷ fs) = record p {
  form = record p.form {
    dir = some (root_of f.path ++ codes " (" ++ show (length (f ∷ fs)) ++ codes " files)");
  };
  files = f ∷ fs;
}

module _ (engine : Engine) where
  -- `newProjectForm.name || 'default'`, the name in the address of the request
  abbrev project_param : Form → Text
  project_param form = field_or form.title (codes "default")

  unfoldable pub new_project : Form → Project
  unfolding shown
  new_project form = record {
    project_id = codes "proj-" ++ engine.now;
    title = field_or form.title (codes "New Project");
    project_dir = form.dir;
    cpu_quota = shown form.cpu ++ codes " Cores";
    ram_quota = shown form.ram ++ codes " GB";
    storage_quota = some (shown form.storage ++ codes " GB");
    pods = shown form.replicas;
  }

  -- What stands behind both branches.
  unfoldable pub finish : Page → Page
  unfolding new_project
  finish p = record {
    form = next_form;
    files = [];
    show_modal = false;
    projects = p.projects ++ new_project p.form ∷ [];
  }

  unfoldable pub env_object : Option Text → Dict Text
  env_object none = []
  env_object (some text) = git_env text

  unfoldable pub deploy_repository : Page → Reply → Page × List Effect
  unfolding finish env_object git_answer
  deploy_repository p reply =
      if truthy_option p.form.git_url
      then (
        finish p,
        send (
              deploy_git (project_param p.form) (field_or p.form.git_url []) p.form.branch
                (env_object p.form.env_vars))
            ∷ alert (git_answer reply)
            ∷ [],
      )
      else (p, alert (codes "Please enter a Git URL!") ∷ [])

  -- The archive is sent if `newProjectForm.envVars` has a method `trim`.
  unfoldable pub send_archive : Page → Option Text → Reply → List Effect
  unfolding upload_answer
  send_archive p none reply = alert (codes "Error during packaging: " ++ engine.undefined_trim) ∷ []
  send_archive p (some text) reply =
      send (
        upload (project_param p.form) (archive_of p.files)
          (if truthy_text (trim text) then some text else none))
      ∷ alert (upload_answer reply)
      ∷ []

  unfoldable pub deploy_folder : Page → List Upload → Reply → Page × List Effect
  unfolding send_archive finish
  deploy_folder p [] reply = (p, alert (codes "Please select a folder to deploy!") ∷ [])
  deploy_folder p (f ∷ fs) reply =
      if has_compose (f ∷ fs)
      then (finish p, send_archive p p.form.env_vars reply)
      else (p, alert (codes "No docker-compose.yaml found in the selected folder!") ∷ [])

  -- `newProjectForm.mode === 'git'`
  unfoldable pub is_git : Option Text → Bool
  is_git none = false
  is_git (some mode) = equal mode (codes "git")

  -- The handler of `Deploy Project`, with the answer that its request would get.
  unfoldable pub deploy : Page → Reply → Page × List Effect
  unfolding is_git deploy_repository deploy_folder
  deploy p reply =
      if is_git p.form.mode then deploy_repository p reply else deploy_folder p p.files reply
