-- ===== src/Comments.antt =====
-- Incident comments: backend/src/incident_desk/services/comments.py.
use incident_desk.Prelude.{
  ℕ, ◌==◌, List, Option, String, Bool, not, ◌&&◌, none, some, [], ◌∷◌, ◌++◌, is_some, find,
  update_where, exists_where,
}
use incident_desk.Errors.{forbidden, not_found}
use incident_desk.Models.{Organization, Comment, User, uid, dict}
use incident_desk.Paging.{page_of}
use incident_desk.Paging.Keys.{by_seq}
use incident_desk.Session.{
  Database, Env, Action, ⊤, pure, gets, or_raise, raise_if, modify, now, new_uuid, next_comment_seq,
  ◌>>=◌, ◌>>◌,
}
use incident_desk.Timeline.{record_event}
use incident_desk.Incidents.{is_incident, get_incident}

-- the join with the incident of the organisation, and `deleted_at IS NULL`
abbrev pub is_visible : ℕ → ℕ → ℕ → Database → Comment → Bool
is_visible org_id incident_id id d c =
    c.incident_id == incident_id
    && c.id == id
    && not (is_some c.deleted_at)
    && exists_where (is_incident org_id c.incident_id) d.incidents

unfoldable pub get_comment : Organization → ℕ → ℕ → Action Comment
unfolding ◌>>=◌
get_comment org incident_id comment_id = do
  found ← gets (λ d. find (is_visible org.id incident_id comment_id d) d.comments)
  or_raise found not_found

unfoldable pub save_comment : Comment → Action ⊤
unfolding ◌>>=◌
save_comment comment =
    modify (λ d. record d {
      comments = update_where (λ c. c.id == comment.id) (λ _. comment) d.comments;
    })

module _ (env : Env) (org : Organization) (incident_id : ℕ) where
  unfoldable pub add_comment : User → String → Action Comment
  unfolding get_incident record_event ◌>>=◌
  add_comment author body = do
    incident ← get_incident org incident_id
    id ← new_uuid env
    seq ← next_comment_seq
    let comment : Comment = record {
      id = id;
      seq = seq;
      incident_id = incident.id;
      author_id = author.id;
      body = body;
      edited_at = none;
      deleted_at = none;
    }
    modify (λ d. record d { comments = d.comments ++ comment ∷ [] })
    record_event env incident.id (some author.id) "comment.added"
        (dict (("comment_id", uid id) ∷ []))
    pure comment

  unfoldable pub edit_comment : ℕ → User → String → Action Comment
  unfolding get_comment save_comment record_event ◌>>=◌
  edit_comment comment_id actor body = do
    comment ← get_comment org incident_id comment_id
    raise_if (not (comment.author_id == actor.id)) forbidden
    at ← now env
    let edited : Comment = record comment { body = body; edited_at = some at }
    save_comment edited
    record_event env comment.incident_id (some actor.id) "comment.edited"
        (dict (("comment_id", uid comment.id) ∷ []))
    pure edited

  unfoldable pub delete_comment : ℕ → User → Bool → Action ⊤
  unfolding get_comment save_comment record_event ◌>>=◌
  delete_comment comment_id actor can_moderate = do
    comment ← get_comment org incident_id comment_id
    raise_if (not (comment.author_id == actor.id) && not can_moderate) forbidden
    at ← now env
    save_comment (record comment { deleted_at = some at })
    record_event env comment.incident_id (some actor.id) "comment.deleted"
        (dict (("comment_id", uid comment.id) ∷ []))

-- `incident_id = ...` and `deleted_at IS NULL`
abbrev pub is_comment_of : ℕ → Comment → Bool
is_comment_of incident_id c = c.incident_id == incident_id && not (is_some c.deleted_at)

abbrev pub comment_seq_of : Comment → ℕ
comment_seq_of c = c.seq

unfoldable pub list_comments : Organization → ℕ → ℕ → Option ℕ → Action (List Comment × Option ℕ)
unfolding get_incident ◌>>=◌
list_comments org incident_id limit cursor = do
  incident ← get_incident org incident_id
  gets (λ d. page_of (by_seq comment_seq_of) (is_comment_of incident.id) limit cursor d.comments)
