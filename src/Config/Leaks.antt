-- ===== src/Config/Leaks.antt =====
-- The variables that read_buffer_policies does not reset between two policies.
use coaly.Prelude.{
  ℕ, ◌≤◌, ◌-◌, ◌^◌, ◌==◌, ◌≡◌, refl, subst, ap, ltb, Bool, false, Option, none, some, List, arith,
}
use coaly.Prelude.Texts.{Text}
use coaly.Document.{value_item, TomlTable, no_entries, entry, table}
use coaly.Policies.{BufferPolicy}
use coaly.Collections.Defaults.{MapWithDefault, insert_element}
use coaly.Config.{CoalyException, Library}
use coaly.Config.Buffers.{
  BufferAttrs, buffer_attrs, index_size_for, max_rec_len_for, buffer_policy, with_policy,
  buffer_policies,
}
use coaly.Config.Returns.{Post, Returns, bind-Returns, if_given-Returns, if-Returns, Between}
use coaly.Config.Limits.{
  InRange, IsUsable, Made, buffer_policy-Made, index_size_for-Between, max_rec_len_for-Between,
}

-- The variables with the values of a policy.
abbrev pub attrs_of : BufferPolicy → BufferAttrs
attrs_of p = record {
  cont_size = some p.content_size;
  index_size = some p.index_size;
  max_rec_len = some p.max_record_length;
  flush_events = p.flush_conditions;
}

-- Where a policy was made, the variables have its values.
abbrev Left : Option BufferPolicy × BufferAttrs → Type 0
Left (none, a) = Unit {0}
Left (some p, a) = a ≡ attrs_of p

Post-at {ℓ} :
    {A : Type ℓ} (P : A → Type 0) (r : Option (A × List CoalyException)) (a : A)
    (msgs : List CoalyException)
    → Post P r
    → r ≡ some (a, msgs)
    → P a
Post-at P r a msgs h e = subst (Post P) e h

module _ (lib : Library) where
  buffer_policy-Left :
      (key : Text) (line_nr : ℕ) (a : BufferAttrs)
      → InRange a
      → Returns Left (buffer_policy lib key line_nr a)
  unfolding buffer_policy
  buffer_policy-Left key line_nr a h =
      if-Returns (a.flush_events == 0) _ _ (λ e. record { post = λ msgs. tt })
        λ flushes.
          if_given-Returns a.cont_size _ _ (record { post = λ msgs. tt })
            λ cont_size e.
              let c : (4096 ≤ cont_size) × (cont_size ≤ 2 ^ 32 - 1) =
                subst (Between 4096 (2 ^ 32 - 1)) e h.cont in
              bind-Returns _ _
                (index_size_for-Between lib key line_nr a.index_size cont_size h.index c)
                λ index_size i.
                  bind-Returns _ _
                    (max_rec_len_for-Between lib key line_nr a.max_rec_len cont_size h.rec_len c.0)
                    λ len l. record {
                      post = λ msgs.
                          ap
                            (λ o. record {
                              cont_size = o;
                              index_size = some index_size;
                              max_rec_len = some len;
                              flush_events = a.flush_events;
                            })
                            e;
                    }

  buffer_policy-again :
      (p : BufferPolicy) (key : Text) (line_nr : ℕ) (msgs : List CoalyException)
      → IsUsable p
      → buffer_policy lib key line_nr (attrs_of p) msgs
        ≡ some ((some (record p { name = key }), attrs_of p), msgs)
  unfolding buffer_policy index_size_for max_rec_len_for
  buffer_policy-again p key line_nr msgs u =
      let fits : ltb p.content_size p.max_record_length ≡ false = ground (arith, u.rec_len.1) in
      rw (u.flushes) (rw (fits) refl)

  -- Where a buffer policy was made, a table without attributes behind it makes a policy with the
  -- same sizes and flush conditions, and gives no warning.
  pub buffer_policies-leaks :
      (key bpkey next : Text) (line_nr next_line : ℕ) (flag : Bool) (a a1 : BufferAttrs)
      (p : BufferPolicy) (msgs msgs1 : List CoalyException) (items : TomlTable)
      (pols : MapWithDefault BufferPolicy)
      → InRange a
      → buffer_policy lib key line_nr a msgs ≡ some ((some p, a1), msgs1)
      → buffer_policies lib bpkey
          (entry next (value_item (table no_entries) next_line flag) items)
          a1
          pols
          msgs1
        ≡ buffer_policies lib bpkey items a1
            (insert_element pols next (record p { name = next }))
            msgs1
  unfolding buffer_policies buffer_attrs with_policy
  buffer_policies-leaks key bpkey next line_nr next_line flag a a1 p msgs msgs1 items pols h e =
      let left : a1 ≡ attrs_of p =
        Post-at Left _ _ _ ((buffer_policy-Left key line_nr a h).post msgs) e in
      let made = Post-at (Made lib) _ _ _ ((buffer_policy-Made lib key line_nr a h).post msgs) e in
      rw (left) (rw (buffer_policy-again p next next_line msgs1 made.0) refl)
