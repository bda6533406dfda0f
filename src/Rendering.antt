-- ===== src/Rendering.antt =====
-- page.go: the renderer of pages. `execute` is html/template: the functions, the name of a template
-- and its data give the texts that are written, one after the other, and the error that ends them, where
-- there is one.
pub mod Pages
pub mod Texts
use howdah.Base.{
  ℕ, String, List, [], ◌∷◌, ◌++◌, Bool, true, false, ◌&&◌, ◌||◌, not, Option, none, some, map, ◌==◌,
  nat_eq, if◌then◌else◌,
}
use howdah.Base.Bytes.{Bytes, bytes, bytes_eq}
use howdah.Base.Dict.{lookup, insert}
use howdah.Errors.{Error, Message, TextLabel, lit, wrap, message, Result, ok, err}
use howdah.Errors.Http.{HttpError, t_msg, tl, status_internal_server_error}
use howdah.Menu.{MenuItem, Hooks, no_hooks, collect, alter, sort_menu_items}
use howdah.PageMux.{ErrorInfo}

pub record Link : Type 0 where
  pub text : TextLabel
  pub href : Bytes

-- The contents of a page are an application's value, known by a number, or an error.
pub data Contents : Type 0 where
  shown : ℕ → Contents
  failure : ErrorInfo → Contents

-- A Page.
pub record PageContent : Type 0 where
  pub status : ℕ
  pub template : Bytes
  pub title : TextLabel
  pub menu : List MenuItem
  pub breadcrumb : List Link
  pub contents : Contents

-- What the renderer reads of a request.
pub record PageRequest : Type 0 where
  pub url : Bytes
  pub url_path : Bytes
  pub accept_language : Bytes
  pub cookies : List (Bytes × Bytes)

pub record AlterContext : Type 0 where
  pub request : PageRequest
  pub page : PageContent

abbrev pub MenuHooks : Type 0
MenuHooks = Hooks AlterContext MenuItem

-- An i18n.Localizer, by the languages that it prefers.
abbrev pub Localizer : Type 0
Localizer = List Bytes

-- The functions that a template may call. `custom` is one of a component's.
pub data TemplateFunc : Type 0 where
  translate translate_label translate_data : Localizer → TemplateFunc
  path_escape : TemplateFunc
  lang : Bytes → TemplateFunc
  context : Option ℕ → TemplateFunc
  page_url : Option Bytes → TemplateFunc
  no_block render_block : TemplateFunc
  custom : ℕ → TemplateFunc

abbrev pub FuncMap : Type 0
FuncMap = List (Bytes × TemplateFunc)

-- A component, by the interfaces that it implements.
pub record AppComponent : Type 0 where
  pub template_funcs : Option FuncMap
  pub menu_hook : Option (MenuHooks → MenuHooks)
  pub base_path : Option Bytes
  pub insecure_cookies : Option Bool
  pub observes : Bool

pub record PageRenderer : Type 0 where
  pub template_funcs : FuncMap
  pub menu : List MenuItem
  pub menu_hooks : MenuHooks

abbrev pub default_funcs : FuncMap
default_funcs =
    (bytes "t", translate (bytes "en" ∷ []))
    ∷ (bytes "td", translate_data (bytes "en" ∷ []))
    ∷ (bytes "tl", translate_label (bytes "en" ∷ []))
    ∷ (bytes "pathescape", path_escape)
    ∷ (bytes "lang", lang (bytes "en"))
    ∷ (bytes "ctx", context none)
    ∷ (bytes "page_url", page_url none)
    ∷ (bytes "renderBlock", no_block)
    ∷ []

-- `maps.Copy`
unfoldable pub copy_funcs : FuncMap → FuncMap → FuncMap
unfolding insert
copy_funcs funcs [] = funcs
copy_funcs funcs ((name, fn) ∷ more) = copy_funcs (insert name fn funcs) more

unfoldable pub add_funcs : Option FuncMap → FuncMap → FuncMap
unfolding copy_funcs
add_funcs none funcs = funcs
add_funcs (some more) funcs = copy_funcs funcs more

unfoldable pub component_funcs : List AppComponent → FuncMap → FuncMap
unfolding add_funcs
component_funcs [] funcs = funcs
component_funcs (c ∷ components) funcs =
    component_funcs components (add_funcs c.template_funcs funcs)

abbrev pub add_hooks : Option (MenuHooks → MenuHooks) → MenuHooks → MenuHooks
add_hooks none hooks = hooks
add_hooks (some hook) hooks = hook hooks

unfoldable pub component_hooks : List AppComponent → MenuHooks → MenuHooks
component_hooks [] hooks = hooks
component_hooks (c ∷ components) hooks = component_hooks components (add_hooks c.menu_hook hooks)

-- `parse_error` is the failure of parsing the templates.
abbrev pub or_parse_error : PageRenderer → Option Error → Result PageRenderer
or_parse_error pr none = ok pr
or_parse_error pr (some e) = err (wrap (lit "parse templates" ∷ []) e)

unfoldable pub new_page_renderer : List AppComponent → Option Error → Result PageRenderer
unfolding component_funcs component_hooks
new_page_renderer components parse_error =
    let hooks = component_hooks components (no_hooks AlterContext MenuItem) in
    or_parse_error
      (record {
        template_funcs = component_funcs components default_funcs;
        menu = collect AlterContext MenuItem hooks;
        menu_hooks = hooks;
      })
      parse_error

abbrev pub lang_setting : Option Bytes → Bytes
lang_setting none = bytes "en"
lang_setting (some value) = if value == [] then bytes "en" else value

unfoldable pub localizer : PageRequest → Bytes × Localizer
unfolding lookup
localizer r =
    let setting = lang_setting (lookup (bytes "lang") r.cookies) in
    (setting, setting ∷ r.accept_language ∷ [])

-- The functions of one request's templates. `ctx` is the number of its context.
unfoldable pub locale_funcs : FuncMap → ℕ → PageRequest → FuncMap
unfolding localizer insert copy_funcs
locale_funcs funcs ctx r =
    let (setting, loc) = localizer r in
    copy_funcs funcs (
      (bytes "ctx", context (some ctx))
      ∷ (bytes "t", translate loc)
      ∷ (bytes "tl", translate_label loc)
      ∷ (bytes "td", translate_data loc)
      ∷ (bytes "lang", lang setting)
      ∷ (bytes "page_url", page_url (some r.url))
      ∷ (bytes "renderBlock", render_block)
      ∷ [])

-- The contents of a buffer.
abbrev pub concat : List Bytes → Bytes
concat [] = []
concat (text ∷ texts) = text ++ concat texts

-- What is done to a response.
pub data Written : Type 0 where
  add_header : Bytes → Bytes → Written
  write_header : ℕ → Written
  write : Bytes → Written
  log_error : Error → Written

abbrev pub or_default : ℕ → ℕ → ℕ
or_default status default_status = if status == 0 then default_status else status

unfoldable pub contains : List Bytes → Bytes → Bool
contains [] a = false
contains (b ∷ bs) a = b == a || contains bs a

abbrev pub first_href : List Link → List Bytes
first_href [] = []
first_href (link ∷ links) = link.href ∷ []

-- The addresses whose menu items are active.
abbrev pub checks : PageRequest → PageContent → List Bytes
checks r p = r.url_path ∷ first_href p.breadcrumb

abbrev pub mark_active : List Bytes → MenuItem → MenuItem
mark_active check item = record item { active = contains check item.href }

-- The menu of a page.
unfoldable pub page_menu : PageRenderer → PageRequest → PageContent → List MenuItem
unfolding sort_menu_items contains
page_menu pr r p = map (mark_active (checks r p)) (
    alter AlterContext MenuItem pr.menu_hooks (record { request = r; page = p })
      (sort_menu_items (pr.menu ++ p.menu)))

module _ (execute : FuncMap → Bytes → PageContent → List Bytes × Option Error) where
  abbrev pub error_content : ErrorInfo → PageContent
  error_content info = record {
    status = 0;
    template = [];
    title = t_msg (record { id = "ErrorEncountered"; other = "Encountered an error" });
    menu = [];
    breadcrumb = [];
    contents = failure info;
  }

  abbrev pub logged_failure : Option Error → List Written
  logged_failure none = []
  logged_failure (some e) = log_error e ∷ []

  unfoldable pub render_error_page : PageRenderer → ℕ → PageRequest → ErrorInfo → List Written
  unfolding locale_funcs
  render_error_page pr ctx r info =
      let (texts, failed) =
        execute (locale_funcs pr.template_funcs ctx r) (bytes "error.html") (error_content info) in
      write_header (or_default info.shown.code status_internal_server_error)
      ∷ (map write texts ++ logged_failure failed)

  abbrev pub failed_render : Error → ErrorInfo
  failed_render e = record {
    cause = e;
    shown = record {
      code = 0;
      message = tl "PageRenderFailed" ("Failed to render page template" ∷ []);
    };
  }

  -- The page is written to a buffer first.
  abbrev pub respond :
      PageRenderer → ℕ → PageRequest → PageContent → List Bytes × Option Error → List Written
  respond pr ctx r p (texts, some e) = log_error e ∷ render_error_page pr ctx r (failed_render e)
  respond pr ctx r p (texts, none) =
      add_header (bytes "Content-Type") (bytes "text/html")
      ∷ write_header (or_default p.status 200)
      ∷ write (concat texts)
      ∷ []

  unfoldable pub render_whole_page : PageRenderer → ℕ → PageRequest → PageContent → List Written
  unfolding locale_funcs page_menu render_error_page
  render_whole_page pr ctx r p =
      let whole = record p { menu = page_menu pr r p } in
      respond pr ctx r whole (execute (locale_funcs pr.template_funcs ctx r) p.template whole)
