-- ===== src/Http.antt =====
-- Requests and responses, as far as the program reads and makes them. A header or a cookie is looked
-- up by its name in lower case; the context that a template is rendered with is reduced to its error.
use billsons_forms.Base.{Option, Text, ℕ}

pub record Request : Type 0 where
  pub client_host : Option Text
  pub header : Text → Option Text
  pub cookie : Text → Option Text

pub data Response : Type 0 where
  -- `RedirectResponse(url, status_code=303)`.
  redirect : Text → Response
  -- The redirect after a login, with the session cookie, and that after a logout, which deletes it.
  redirect_with_cookie : Text → Text → Response
  redirect_without_cookie : Text → Response
  -- `TemplateResponse(template, …, status_code=…)`.
  page : Text → ℕ → Option Text → Response
  -- `HTTPException(status_code, detail)`.
  http_error : ℕ → Text → Response
  -- An exception that no handler catches.
  raised : Response
