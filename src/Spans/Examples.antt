-- ===== src/Spans/Examples.antt =====
-- The theorems of the spans at concrete states.
use fex.Common.{◌≡◌, refl, true, false, List, [], ◌∷◌, codes, none, some, ◌==◌, if◌then◌else◌}
use fex.Spans.{
  FexSpan, Spans, Allocations, empty_state, fex_span_is_enabled, fex_record_span, fex_lookup_span,
  fex_span_prune, fex_span_cleanup,
}
use fex.Spans.Account.{
  Call, record_call, prune_call, enable_call, after_calls, opened, spans_of, fex_span_cleanup-frees,
}
use fex.Spans.Lookup.{with_span, succeeded, fex_span_prune-lookup, fex_record_span-lookup}

abbrev call_span : FexSpan
call_span = record {
  node = 64;
  source = some (codes "f(x)");
  source_name = codes "a.fex";
  start_line = 1;
  start_col = 1;
  end_line = 1;
  end_col = 5;
}

-- No memory for the entry of the source name.
abbrev no_entry : Allocations
no_entry = record { excerpt = true; entry = true; name_text = true; name_entry = false }

abbrev enabled_spans : Spans
enabled_spans = record {
  state = some (record empty_state { enabled = true });
  taken = 1;
  freed = 0;
}

enabled_spans-is_enabled : fex_span_is_enabled enabled_spans ≡ true
unfolding fex_span_is_enabled
enabled_spans-is_enabled = refl

fex_record_span-lookup_example :
    fex_lookup_span (spans_of (fex_record_span no_entry call_span enabled_spans)) 64
    ≡ with_span
        (succeeded (fex_record_span no_entry call_span enabled_spans))
        call_span
        64
        (fex_lookup_span enabled_spans 64)
fex_record_span-lookup_example =
    fex_record_span-lookup no_entry call_span enabled_spans 64 enabled_spans-is_enabled

fex_span_prune-lookup_example :
    fex_lookup_span (fex_span_prune (λ node. node == 64) enabled_spans) 72
    ≡ (if 72 == 64 then fex_lookup_span enabled_spans 72 else none)
fex_span_prune-lookup_example = fex_span_prune-lookup (λ node. node == 64) enabled_spans 72

abbrev calls : List Call
calls =
    enable_call true true ∷ record_call no_entry call_span ∷ prune_call (λ node. node == 64) ∷ []

fex_span_cleanup-frees_example :
    (fex_span_cleanup (after_calls calls opened)).taken
    ≡ (fex_span_cleanup (after_calls calls opened)).freed
fex_span_cleanup-frees_example = fex_span_cleanup-frees calls
