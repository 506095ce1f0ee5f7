-- ===== src/Projects/Edits.antt =====
-- The inputs and buttons of the project dialog.
use p2ser.Base.{ℕ, Bool, List, [], ◌∷◌, some}
use p2ser.Projects.{Upload, Page, choose_files}
use p2ser.Text.{Text}

pub data Input : Type 0 where
  set_title : Text → Input
  set_mode : Text → Input
  set_env_vars : Text → Input
  set_dir : Text → Input
  set_git_url : Text → Input
  set_branch : Text → Input
  files_chosen : List Upload → Input
  dialog_shown : Bool → Input

-- `setNewProjectForm({...newProjectForm, x: v})`, and the other handlers of the dialog
unfoldable pub edit_page : (ℕ → Text) → Page → Input → Page
edit_page show p (set_title v) = record p { form = record p.form { title = some v } }
edit_page show p (set_mode v) = record p { form = record p.form { mode = some v } }
edit_page show p (set_env_vars v) = record p { form = record p.form { env_vars = some v } }
edit_page show p (set_dir v) = record p { form = record p.form { dir = some v } }
edit_page show p (set_git_url v) = record p { form = record p.form { git_url = some v } }
edit_page show p (set_branch v) = record p { form = record p.form { branch = some v } }
edit_page show p (files_chosen files) = choose_files show p files
edit_page show p (dialog_shown b) = record p { show_modal = b }

unfoldable pub edit_pages : (ℕ → Text) → Page → List Input → Page
edit_pages show p [] = p
edit_pages show p (e ∷ es) = edit_pages show (edit_page show p e) es
