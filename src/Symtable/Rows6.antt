-- ===== src/Symtable/Rows6.antt =====
-- src/symtable.rs: the rows of lines 730 to 872.
use docsis_config_generator.Common.{List, [], ◌∷◌}
use docsis_config_generator.Symbol.{Symbol, Enc, Render}
use docsis_config_generator.Symtable.Row.{row}

abbrev pub rows6 : List Symbol
rows6 =
    row 1024 "ServiceMultiplexingValueL2TPv3Peer" 5 1014 Enc.char_ip_ip6 Render.char_ip_ip6 0 0
    ∷ row 1025 "IEEE8021ahEncapsulation" 6 1014 Enc.nothing Render.aggregate 0 0
    ∷ row 1026 "ITCIEncapsulation" 1 1025 Enc.hexstr Render.hexstr 4 4
    ∷ row 1027 "BDAEncapsulation" 2 1025 Enc.hexstr Render.hexstr 6 6
    ∷ row 1028 "BTCIEncapsulation" 3 1025 Enc.hexstr Render.hexstr 2 2
    ∷ row 1029 "ITPIDEncapsulation" 4 1025 Enc.hexstr Render.hexstr 2 2
    ∷ row 1030 "IPCPEncapsulation" 5 1025 Enc.hexstr Render.hexstr 1 1
    ∷ row 1031 "IDEIEncapsulation" 6 1025 Enc.hexstr Render.hexstr 1 1
    ∷ row 1032 "IUCAEncapsulation" 7 1025 Enc.hexstr Render.hexstr 1 1
    ∷ row 1033 "ISIDEncapsulation" 8 1025 Enc.hexstr Render.hexstr 3 3
    ∷ row 1034 "BTPIDEncapsulation" 9 1025 Enc.hexstr Render.hexstr 2 2
    ∷ row 1035 "BPCPEncapsulation" 10 1025 Enc.hexstr Render.hexstr 1 1
    ∷ row 1036 "BDEIEncapsulation" 11 1025 Enc.hexstr Render.hexstr 1 1
    ∷ row 1037 "BVIDEncapsulation" 12 1025 Enc.hexstr Render.hexstr 2 2
    ∷ row 1038 "ServiceMultiplexingValueIEEE8021adSTPID" 8 1014 Enc.hexstr Render.hexstr 2 2
    ∷ row 1039 "eSAFEDHCPSnooping" 3 1012 Enc.hexstr Render.hexstr 0 0
    ∷ row 1040 "CMInterfaceMaskCMIMSubtype" 4 1012 Enc.hexstr Render.hexstr 0 0
    ∷ row 1041 "AttachmentGroupID" 5 1012 Enc.hexstr Render.hexstr 0 0
    ∷ row 1042 "SourceAttachmentIndividualID" 6 1012 Enc.hexstr Render.hexstr 0 0
    ∷ row 1043 "TargetAttachmentIndividualID" 7 1012 Enc.hexstr Render.hexstr 0 0
    ∷ row 1044 "IngressUserPriority" 8 1012 Enc.uchar Render.uchar 0 7
    ∷ row 1045 "UserPriorityRange" 9 1012 Enc.char_list Render.char_list 0 0
    ∷ row 1046 "L2VPNSADescriptorSubtype" 10 1012 Enc.hexstr Render.hexstr 14 14
    ∷ row 1047 "PseudowireType" 12 1012 Enc.uchar Render.uchar 4 5
    ∷ row 1048 "L2VPNMode" 13 1012 Enc.uchar Render.uchar 0 1
    ∷ row 1049 "TPIDTranslation" 14 1012 Enc.nothing Render.aggregate 0 0
    ∷ row 1050 "UpstreamTPIDTranslation" 1 1049 Enc.hexstr Render.hexstr 2 2
    ∷ row 1051 "DownstreamTPIDTranslation" 2 1049 Enc.hexstr Render.hexstr 2 2
    ∷ row 1052 "UpstreamSTPIDTranslation" 3 1049 Enc.hexstr Render.hexstr 2 2
    ∷ row 1053 "DownstreamSTPIDTranslation" 4 1049 Enc.hexstr Render.hexstr 2 2
    ∷ row 1054 "UpstreamBTPIDTranslation" 5 1049 Enc.hexstr Render.hexstr 2 2
    ∷ row 1055 "DownstreamBTPIDTranslation" 6 1049 Enc.hexstr Render.hexstr 2 2
    ∷ row 1056 "UpstreamITPIDTranslation" 7 1049 Enc.hexstr Render.hexstr 2 2
    ∷ row 1057 "DownstreamITPIDTranslation" 8 1049 Enc.hexstr Render.hexstr 2 2
    ∷ row 1058 "L2CPProcessing" 15 1012 Enc.nothing Render.aggregate 0 0
    ∷ row 1059 "L2CPTunnelMode" 1 1058 Enc.uchar Render.uchar 0 1
    ∷ row 1060 "L2CPDMACAddress" 2 1058 Enc.ether Render.ether 0 0
    ∷ row 1061 "L2CPOverwrotingDMACAddress" 3 1058 Enc.ether Render.ether 0 0
    ∷ row 1062 "DACDisableEnableConfiguration" 16 1012 Enc.uchar Render.uchar 0 1
    ∷ row 1063 "PseudowireClass" 18 1012 Enc.hexstr Render.hexstr 0 0
    ∷ row 1064 "ServiceDelimiter" 19 1012 Enc.nothing Render.aggregate 0 0
    ∷ row 1065 "CVIDDelimiter" 1 1064 Enc.hexstr Render.hexstr 2 2
    ∷ row 1066 "SVIDDelimiter" 2 1064 Enc.hexstr Render.hexstr 2 2
    ∷ row 1067 "ISIDDelimiter" 3 1064 Enc.hexstr Render.hexstr 3 3
    ∷ row 1068 "BVIDDelimiter" 4 1064 Enc.hexstr Render.hexstr 2 2
    ∷ row 1069 "VirtualSwitchInstanceEncoding" 20 1012 Enc.nothing Render.aggregate 0 0
    ∷ row 1070 "VPLSClass" 1 1069 Enc.hexstr Render.hexstr 0 0
    ∷ row 1071 "ETreeRole" 2 1069 Enc.uchar Render.uchar 0 1
    ∷ row 1072 "ETreeRootVID" 3 1069 Enc.hexstr Render.hexstr 2 2
    ∷ row 1073 "ETreeLeafVID" 4 1069 Enc.hexstr Render.hexstr 2 2
    ∷ row 1074 "BGPAttribute" 21 1012 Enc.nothing Render.aggregate 0 0
    ∷ row 1075 "BGPVPNID" 1 1074 Enc.uint Render.uint 0 0
    ∷ row 1076 "RouteDistinguisher" 2 1074 Enc.hexstr Render.hexstr 8 8
    ∷ row 1077 "RouteTargetImport" 3 1074 Enc.hexstr Render.hexstr 0 0
    ∷ row 1078 "RouteTargetExport" 4 1074 Enc.hexstr Render.hexstr 0 0
    ∷ row 1079 "CEIDVEID" 5 1074 Enc.ushort Render.ushort 0 0
    ∷ row 1080 "PseudowireSignaling" 23 1012 Enc.uchar Render.uchar 0 2
    ∷ row 1081 "SOAMSubtype" 24 1012 Enc.nothing Render.aggregate 0 0
    ∷ row 1082 "MEPConfiguration" 1 1081 Enc.nothing Render.aggregate 0 0
    ∷ row 1083 "MDLevel" 1 1082 Enc.uchar Render.uchar 0 7
    ∷ row 1084 "MDName" 2 1082 Enc.string Render.string 2 16
    ∷ row 1085 "MAName" 3 1082 Enc.string Render.string 2 28
    ∷ row 1086 "MEPID" 4 1082 Enc.ushort Render.ushort 1 8191
    ∷ row 1087 "RemoteMEPConfiguration" 2 1081 Enc.nothing Render.aggregate 0 0
    ∷ row 1088 "RemoteMDLevel" 1 1087 Enc.uchar Render.uchar 0 7
    ∷ row 1089 "RemoteMDName" 2 1087 Enc.string Render.string 2 16
    ∷ row 1090 "RemoteMAName" 3 1087 Enc.string Render.string 2 28
    ∷ row 1091 "RemoteMEPID" 4 1087 Enc.ushort Render.ushort 1 8191
    ∷ row 1092 "FaultManagementConfiguration" 3 1081 Enc.nothing Render.aggregate 0 0
    ∷ row 1093 "ContinuityCheckMessages" 1 1092 Enc.uchar Render.uchar 0 2
    ∷ row 1094 "LoopbackFunction" 2 1092 Enc.uchar Render.uchar 0 1
    ∷ row 1095 "LinktraceFunction" 3 1092 Enc.uchar Render.uchar 0 1
    ∷ row 1096 "PerformanceManagementConfiguration" 4 1081 Enc.nothing Render.aggregate 0 0
    ∷ row 1097 "FrameDelayMeasurement" 1 1096 Enc.nothing Render.aggregate 0 0
    ∷ row 1098 "FrameDelayMeasurementEnable" 1 1097 Enc.uchar Render.uchar 0 1
    ∷ row 1099 "FrameDelayMeasurementOneWayTwoWay" 2 1097 Enc.uchar Render.uchar 0 1
    ∷ row 1100 "FrameDelayMeasurementTransmissionPeriodicity" 3 1097 Enc.ushort Render.ushort 0 0
    ∷ row 1101 "FrameLossMeasurement" 2 1096 Enc.nothing Render.aggregate 0 0
    ∷ row 1102 "FrameLossMeasurementEnable" 1 1101 Enc.uchar Render.uchar 0 1
    ∷ row 1103 "FrameLossMeasurementTransmissionPeriodicity" 2 1101 Enc.uchar Render.uchar 0 0
    ∷ row 2040 "VPNSGAttribute" 22 1012 Enc.string Render.string 1 16
    ∷ row 2041 "L2VPNNetworkTimingProfileReference" 25 1012 Enc.ushort Render.ushort 0 65535
    ∷ row 1104 "L2VPNDSID" 26 1012 Enc.uint24 Render.uint24 1 1048575
    ∷ row 2042 "L2VPNMultipointForwardingMode" 27 1012 Enc.uchar Render.uchar 0 1
    ∷ row 1105 "VendorSpecificL2VPNSubtype" 43 1012 Enc.nothing Render.aggregate 0 0
    ∷ row 1106 "VendorIdentifier" 8 1105 Enc.hexstr Render.hexstr 3 3
    ∷ row 1107 "ExtendedCMTSMICConfigurationSetting" 6 199 Enc.nothing Render.aggregate 0 0
    ∷ row 1108 "ExtendedCMTSMICHMACtype" 1 1107 Enc.uchar Render.uchar 0 0
    ∷ row 1109 "ExtendedCMTSMICBitmap" 2 1107 Enc.hexstr Render.hexstr 0 0
    ∷ row 1110 "ExplicitExtendedCMTSMICDigest" 3 1107 Enc.hexstr Render.hexstr 0 0
    ∷ row 1111 "SAVAuthorizationEncoding" 7 199 Enc.nothing Render.aggregate 0 0
    ∷ row 1112 "SAVGroupName" 1 1111 Enc.string Render.string 1 15
    ∷ row 1113 "SAVStaticPrefixRule" 2 1111 Enc.nothing Render.aggregate 0 0
    ∷ row 1114 "SAVStaticPrefixAddress" 1 1113 Enc.ip_ip6 Render.ip_ip6 0 0
    ∷ row 1115 "SAVStaticPrefixLength" 2 1113 Enc.uchar Render.uchar 0 0
    ∷ row 1116 "VendorIdentifier" 8 199 Enc.hexstr Render.hexstr 3 3
    ∷ row 1117 "CMAttributeMasks" 9 199 Enc.nothing Render.aggregate 0 0
    ∷ row 1118 "CMDownstreamRequiredAttributeMask" 1 1117 Enc.hexstr Render.hexstr 4 4
    ∷ row 1119 "CMDownstreamForbiddenAttributeMask" 2 1117 Enc.hexstr Render.hexstr 4 4
    ∷ row 1120 "CMUpstreamRequiredAttributeMask" 3 1117 Enc.hexstr Render.hexstr 4 4
    ∷ row 1121 "CMUpstreamForbiddenAttributeMask" 4 1117 Enc.hexstr Render.hexstr 4 4
    ∷ row 1122 "IPMulticastJoinAuthorization" 10 199 Enc.nothing Render.aggregate 0 0
    ∷ row 1123 "IPMulticastProfileName" 1 1122 Enc.string Render.string 1 15
    ∷ row 1124 "IPMulticastJoinAuthStaticSessionRule" 2 1122 Enc.nothing Render.aggregate 0 0
    ∷ row 1125 "MulticastRulePriority" 1 1124 Enc.uchar Render.uchar 0 255
    ∷ row 1126 "AuthorizationAction" 2 1124 Enc.uchar Render.uchar 0 1
    ∷ row 1127 "SourcePrefixAddress" 3 1124 Enc.ip_ip6 Render.ip_ip6 0 0
    ∷ row 1128 "SourcePrefixLength" 4 1124 Enc.uchar Render.uchar 0 128
    ∷ row 1129 "GroupPrefixAddress" 5 1124 Enc.ip_ip6 Render.ip_ip6 0 0
    ∷ row 1130 "GroupPrefixLength" 6 1124 Enc.uchar Render.uchar 0 128
    ∷ row 1131 "MaximumMulticastSessions" 3 1122 Enc.ushort Render.ushort 0 0
    ∷ row 1132 "ServiceTypeIdentifier" 11 199 Enc.string Render.string 1 16
    ∷ row 1133 "DEMARCAutoConfiguration" 12 199 Enc.nothing Render.aggregate 0 0
    ∷ row 1134 "DACDisableEnableConfig" 1 1133 Enc.uchar Render.uchar 0 1
    ∷ row 1135 "CMIMEncoding" 2 1133 Enc.hexstr Render.hexstr 0 0
    ∷ row 1136 "UpstreamServiceClassName" 3 1133 Enc.strzero Render.strzero 2 16
    ∷ row 1137 "DownstreamServiceClassName" 4 1133 Enc.strzero Render.strzero 2 16
    ∷ row 115 "PHS" 26 0 Enc.nothing Render.aggregate 0 0
    ∷ row 116 "PHSClassifierRef" 1 115 Enc.uchar Render.uchar 1 255
    ∷ row 117 "PHSClassifierId" 2 115 Enc.ushort Render.ushort 1 65535
    ∷ row 118 "PHSServiceFlowRef" 3 115 Enc.ushort Render.ushort 1 65535
    ∷ row 119 "PHSServiceFlowId" 4 115 Enc.uint Render.uint 1 4294967295
    ∷ row 1286 "PHSDSCAction" 5 115 Enc.uchar Render.uchar 0 3
    ∷ row 120 "PHSField" 7 115 Enc.hexstr Render.hexstr 1 255
    ∷ row 121 "PHSIndex" 8 115 Enc.uchar Render.uchar 1 255
    ∷ row 122 "PHSMask" 9 115 Enc.hexstr Render.hexstr 1 255
    ∷ row 123 "PHSSize" 10 115 Enc.uchar Render.uchar 1 255
    ∷ row 124 "PHSVerify" 11 115 Enc.uchar Render.uchar 0 1
    ∷ row 1287 "PHSDBCAction" 13 115 Enc.uchar Render.uchar 0 1
    ∷ row 1138 "VendorSpecific" 43 115 Enc.nothing Render.aggregate 0 0
    ∷ row 1139 "CMLoadBalancingPolicyID" 1 1138 Enc.uint Render.uint 0 0
    ∷ row 1140 "CMLoadBalancingPriority" 2 1138 Enc.uint Render.uint 0 0
    ∷ row 1141 "CMLoadBalancingGroupID" 3 1138 Enc.uint Render.uint 0 0
    ∷ row 1142 "CMRangingClassIDExtension" 4 1138 Enc.ushort Render.ushort 0 0
    ∷ row 1143 "L2VPNEncoding" 5 1138 Enc.nothing Render.aggregate 0 0
    ∷ row 1144 "VPNIdentifier" 1 1143 Enc.hexstr Render.hexstr 4 255
    ∷ row 1145 "NSIEncapsulation" 2 1143 Enc.nothing Render.aggregate 0 0
    ∷ row 1146 "ServiceMultiplexingValueOther" 1 1145 Enc.lenzero Render.lenzero 0 0
    ∷ row 1147 "NSIEncapsulationSingleQTag" 2 1145 Enc.ushort Render.ushort 0 4096
    ∷ row 1148 "NSIEncapsulationDualQTag" 3 1145 Enc.dual_qtag Render.dual_qtag 0 0
    ∷ row 1149 "ServiceMultiplexingValueMPLSPW" 4 1145 Enc.nothing Render.aggregate 0 0
    ∷ row 1150 "MPLSPseudowireID" 1 1149 Enc.uint Render.uint 0 0
    ∷ row 1151 "MPLSPeerIpAddress" 2 1149 Enc.char_ip_ip6 Render.char_ip_ip6 0 0
    ∷ []
