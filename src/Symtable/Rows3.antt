-- ===== src/Symtable/Rows3.antt =====
-- src/symtable.rs: the rows of lines 301 to 443.
use docsis_config_generator.Common.{List, [], ◌∷◌}
use docsis_config_generator.Symbol.{Symbol, Enc, Render}
use docsis_config_generator.Symtable.Row.{row}

abbrev pub rows3 : List Symbol
rows3 =
    row 60 "ActivationState" 6 54 Enc.uchar Render.uchar 0 1
    ∷ row 61 "DscAction" 7 54 Enc.uchar Render.uchar 0 2
    ∷ row 62 "IpPacketClassifier" 9 54 Enc.nothing Render.aggregate 0 0
    ∷ row 63 "IpTos" 1 62 Enc.hexstr Render.hexstr 3 3
    ∷ row 64 "IpProto" 2 62 Enc.ushort Render.ushort 0 257
    ∷ row 65 "IpSrcAddr" 3 62 Enc.ip Render.ip 0 0
    ∷ row 66 "IpSrcMask" 4 62 Enc.ip Render.ip 0 0
    ∷ row 67 "IpDstAddr" 5 62 Enc.ip Render.ip 0 0
    ∷ row 68 "IpDstMask" 6 62 Enc.ip Render.ip 0 0
    ∷ row 69 "SrcPortStart" 7 62 Enc.ushort Render.ushort 0 65535
    ∷ row 70 "SrcPortEnd" 8 62 Enc.ushort Render.ushort 0 65535
    ∷ row 71 "DstPortStart" 9 62 Enc.ushort Render.ushort 0 65535
    ∷ row 72 "DstPortEnd" 10 62 Enc.ushort Render.ushort 0 65535
    ∷ row 73 "LLCPacketClassifier" 10 54 Enc.nothing Render.aggregate 0 0
    ∷ row 74 "DstMacAddress" 1 73 Enc.ethermask Render.ethermask 0 0
    ∷ row 75 "SrcMacAddress" 2 73 Enc.ether Render.ether 0 0
    ∷ row 76 "EtherType" 3 73 Enc.hexstr Render.hexstr 0 3
    ∷ row 77 "IEEE802Classifier" 11 54 Enc.nothing Render.aggregate 0 0
    ∷ row 78 "UserPriority" 1 77 Enc.char_list Render.char_list 0 0
    ∷ row 79 "VlanID" 2 77 Enc.ushort Render.ushort 0 0
    ∷ row 220 "PcIPv6PacketClassification" 12 54 Enc.nothing Render.aggregate 0 0
    ∷ row 221 "PcIPv6TrafficClassRangeAndMask" 1 220 Enc.hexstr Render.hexstr 0 0
    ∷ row 222 "PcIPv6FlowLabel" 2 220 Enc.hexstr Render.hexstr 4 4
    ∷ row 223 "PcIPv6NextHeaderType" 3 220 Enc.ushort Render.ushort 0 257
    ∷ row 224 "PcIPv6SourceAddress" 4 220 Enc.ip6 Render.ip6 0 0
    ∷ row 225 "PcIPv6SourcePrefixLength" 5 220 Enc.uchar Render.uchar 0 128
    ∷ row 226 "PcIPv6DestAddress" 6 220 Enc.ip6 Render.ip6 0 0
    ∷ row 227 "PcIPv6DestPrefixLength" 7 220 Enc.uchar Render.uchar 0 128
    ∷ row 1421 "PcCMIMEncoding" 13 54 Enc.hexstr Render.hexstr 0 0
    ∷ row 289 "STagCTagFrameClassification" 14 54 Enc.nothing Render.aggregate 0 0
    ∷ row 290 "STPID" 1 289 Enc.hexstr Render.hexstr 2 2
    ∷ row 291 "SVID" 2 289 Enc.hexstr Render.hexstr 2 2
    ∷ row 292 "SPCP" 3 289 Enc.hexstr Render.hexstr 1 1
    ∷ row 293 "SDEI" 4 289 Enc.hexstr Render.hexstr 1 1
    ∷ row 294 "CTPID" 5 289 Enc.hexstr Render.hexstr 2 2
    ∷ row 295 "CVID" 6 289 Enc.hexstr Render.hexstr 2 2
    ∷ row 296 "CPCP" 7 289 Enc.hexstr Render.hexstr 1 1
    ∷ row 297 "CCFI" 8 289 Enc.hexstr Render.hexstr 1 1
    ∷ row 298 "STCI" 9 289 Enc.hexstr Render.hexstr 2 2
    ∷ row 299 "CTCI" 10 289 Enc.hexstr Render.hexstr 2 2
    ∷ row 314 "IEEE8021ahPacketClassification" 15 54 Enc.nothing Render.aggregate 0 0
    ∷ row 315 "ITPID" 1 314 Enc.hexstr Render.hexstr 2 2
    ∷ row 316 "ISID" 2 314 Enc.hexstr Render.hexstr 3 3
    ∷ row 317 "ITCI" 3 314 Enc.hexstr Render.hexstr 5 5
    ∷ row 318 "IPCP" 4 314 Enc.hexstr Render.hexstr 1 1
    ∷ row 319 "IDEI" 5 314 Enc.hexstr Render.hexstr 1 1
    ∷ row 320 "IUCA" 6 314 Enc.hexstr Render.hexstr 1 1
    ∷ row 321 "BTPID" 7 314 Enc.hexstr Render.hexstr 2 2
    ∷ row 322 "BTCI" 8 314 Enc.hexstr Render.hexstr 2 2
    ∷ row 323 "BPCP" 9 314 Enc.hexstr Render.hexstr 1 1
    ∷ row 324 "BDEI" 10 314 Enc.hexstr Render.hexstr 1 1
    ∷ row 325 "BVID" 11 314 Enc.hexstr Render.hexstr 2 2
    ∷ row 326 "BDA" 12 314 Enc.ether Render.ether 0 0
    ∷ row 327 "BSA" 13 314 Enc.ether Render.ether 0 0
    ∷ row 331 "ICMPv4ICMPv6PacketClassification" 16 54 Enc.nothing Render.aggregate 0 0
    ∷ row 332 "ICMPv4ICMPv6TypeStart" 1 331 Enc.uchar Render.uchar 0 255
    ∷ row 333 "ICMPv4ICMPv6TypeEnd" 2 331 Enc.uchar Render.uchar 0 255
    ∷ row 337 "MPLSClassificationEncoding" 17 54 Enc.nothing Render.aggregate 0 0
    ∷ row 338 "MPLSTCbits" 1 337 Enc.hexstr Render.hexstr 1 1
    ∷ row 339 "MPLSLabel" 2 337 Enc.hexstr Render.hexstr 3 3
    ∷ row 204 "VendorSpecific" 43 54 Enc.nothing Render.aggregate 0 0
    ∷ row 757 "CMLoadBalancingPolicyID" 1 204 Enc.uint Render.uint 0 0
    ∷ row 758 "CMLoadBalancingPriority" 2 204 Enc.uint Render.uint 0 0
    ∷ row 759 "CMLoadBalancingGroupID" 3 204 Enc.uint Render.uint 0 0
    ∷ row 760 "CMRangingClassIDExtension" 4 204 Enc.ushort Render.ushort 0 0
    ∷ row 761 "L2VPNEncoding" 5 204 Enc.nothing Render.aggregate 0 0
    ∷ row 762 "VPNIdentifier" 1 761 Enc.hexstr Render.hexstr 4 255
    ∷ row 763 "NSIEncapsulation" 2 761 Enc.nothing Render.aggregate 0 0
    ∷ row 764 "ServiceMultiplexingValueOther" 1 763 Enc.lenzero Render.lenzero 0 0
    ∷ row 765 "NSIEncapsulationSingleQTag" 2 763 Enc.ushort Render.ushort 0 4096
    ∷ row 766 "NSIEncapsulationDualQTag" 3 763 Enc.dual_qtag Render.dual_qtag 0 0
    ∷ row 767 "ServiceMultiplexingValueMPLSPW" 4 763 Enc.nothing Render.aggregate 0 0
    ∷ row 768 "MPLSPseudowireID" 1 767 Enc.uint Render.uint 0 0
    ∷ row 769 "MPLSPeerIpAddress" 2 767 Enc.char_ip_ip6 Render.char_ip_ip6 0 0
    ∷ row 770 "MPLSPseudowireType" 3 767 Enc.uchar Render.uchar 0 0
    ∷ row 771 "MPLSBackupPseudowireID" 4 767 Enc.uint Render.uint 0 0
    ∷ row 772 "MPLSBackupPeerIpAddress" 5 767 Enc.char_ip_ip6 Render.char_ip_ip6 0 0
    ∷ row 773 "ServiceMultiplexingValueL2TPv3Peer" 5 763 Enc.char_ip_ip6 Render.char_ip_ip6 0 0
    ∷ row 774 "IEEE8021ahEncapsulation" 6 763 Enc.nothing Render.aggregate 0 0
    ∷ row 775 "ITCIEncapsulation" 1 774 Enc.hexstr Render.hexstr 4 4
    ∷ row 776 "BDAEncapsulation" 2 774 Enc.hexstr Render.hexstr 6 6
    ∷ row 777 "BTCIEncapsulation" 3 774 Enc.hexstr Render.hexstr 2 2
    ∷ row 778 "ITPIDEncapsulation" 4 774 Enc.hexstr Render.hexstr 2 2
    ∷ row 779 "IPCPEncapsulation" 5 774 Enc.hexstr Render.hexstr 1 1
    ∷ row 780 "IDEIEncapsulation" 6 774 Enc.hexstr Render.hexstr 1 1
    ∷ row 781 "IUCAEncapsulation" 7 774 Enc.hexstr Render.hexstr 1 1
    ∷ row 782 "ISIDEncapsulation" 8 774 Enc.hexstr Render.hexstr 3 3
    ∷ row 783 "BTPIDEncapsulation" 9 774 Enc.hexstr Render.hexstr 2 2
    ∷ row 784 "BPCPEncapsulation" 10 774 Enc.hexstr Render.hexstr 1 1
    ∷ row 785 "BDEIEncapsulation" 11 774 Enc.hexstr Render.hexstr 1 1
    ∷ row 786 "BVIDEncapsulation" 12 774 Enc.hexstr Render.hexstr 2 2
    ∷ row 787 "ServiceMultiplexingValueIEEE8021adSTPID" 8 763 Enc.hexstr Render.hexstr 2 2
    ∷ row 788 "eSAFEDHCPSnooping" 3 761 Enc.hexstr Render.hexstr 0 0
    ∷ row 789 "CMInterfaceMaskCMIMSubtype" 4 761 Enc.hexstr Render.hexstr 0 0
    ∷ row 790 "AttachmentGroupID" 5 761 Enc.hexstr Render.hexstr 0 0
    ∷ row 791 "SourceAttachmentIndividualID" 6 761 Enc.hexstr Render.hexstr 0 0
    ∷ row 792 "TargetAttachmentIndividualID" 7 761 Enc.hexstr Render.hexstr 0 0
    ∷ row 793 "IngressUserPriority" 8 761 Enc.uchar Render.uchar 0 7
    ∷ row 794 "UserPriorityRange" 9 761 Enc.char_list Render.char_list 0 0
    ∷ row 795 "L2VPNSADescriptorSubtype" 10 761 Enc.hexstr Render.hexstr 14 14
    ∷ row 796 "PseudowireType" 12 761 Enc.uchar Render.uchar 4 5
    ∷ row 797 "L2VPNMode" 13 761 Enc.uchar Render.uchar 0 1
    ∷ row 798 "TPIDTranslation" 14 761 Enc.nothing Render.aggregate 0 0
    ∷ row 799 "UpstreamTPIDTranslation" 1 798 Enc.hexstr Render.hexstr 2 2
    ∷ row 800 "DownstreamTPIDTranslation" 2 798 Enc.hexstr Render.hexstr 2 2
    ∷ row 801 "UpstreamSTPIDTranslation" 3 798 Enc.hexstr Render.hexstr 2 2
    ∷ row 802 "DownstreamSTPIDTranslation" 4 798 Enc.hexstr Render.hexstr 2 2
    ∷ row 803 "UpstreamBTPIDTranslation" 5 798 Enc.hexstr Render.hexstr 2 2
    ∷ row 804 "DownstreamBTPIDTranslation" 6 798 Enc.hexstr Render.hexstr 2 2
    ∷ row 805 "UpstreamITPIDTranslation" 7 798 Enc.hexstr Render.hexstr 2 2
    ∷ row 806 "DownstreamITPIDTranslation" 8 798 Enc.hexstr Render.hexstr 2 2
    ∷ row 807 "L2CPProcessing" 15 761 Enc.nothing Render.aggregate 0 0
    ∷ row 808 "L2CPTunnelMode" 1 807 Enc.uchar Render.uchar 0 1
    ∷ row 809 "L2CPDMACAddress" 2 807 Enc.ether Render.ether 0 0
    ∷ row 810 "L2CPOverwrotingDMACAddress" 3 807 Enc.ether Render.ether 0 0
    ∷ row 811 "DACDisableEnableConfiguration" 16 761 Enc.uchar Render.uchar 0 1
    ∷ row 812 "PseudowireClass" 18 761 Enc.hexstr Render.hexstr 0 0
    ∷ row 813 "ServiceDelimiter" 19 761 Enc.nothing Render.aggregate 0 0
    ∷ row 814 "CVIDDelimiter" 1 813 Enc.hexstr Render.hexstr 2 2
    ∷ row 815 "SVIDDelimiter" 2 813 Enc.hexstr Render.hexstr 2 2
    ∷ row 816 "ISIDDelimiter" 3 813 Enc.hexstr Render.hexstr 3 3
    ∷ row 817 "BVIDDelimiter" 4 813 Enc.hexstr Render.hexstr 2 2
    ∷ row 818 "VirtualSwitchInstanceEncoding" 20 761 Enc.nothing Render.aggregate 0 0
    ∷ row 819 "VPLSClass" 1 818 Enc.hexstr Render.hexstr 0 0
    ∷ row 820 "ETreeRole" 2 818 Enc.uchar Render.uchar 0 1
    ∷ row 821 "ETreeRootVID" 3 818 Enc.hexstr Render.hexstr 2 2
    ∷ row 822 "ETreeLeafVID" 4 818 Enc.hexstr Render.hexstr 2 2
    ∷ row 823 "BGPAttribute" 21 761 Enc.nothing Render.aggregate 0 0
    ∷ row 824 "BGPVPNID" 1 823 Enc.uint Render.uint 0 0
    ∷ row 825 "RouteDistinguisher" 2 823 Enc.hexstr Render.hexstr 8 8
    ∷ row 826 "RouteTargetImport" 3 823 Enc.hexstr Render.hexstr 0 0
    ∷ row 827 "RouteTargetExport" 4 823 Enc.hexstr Render.hexstr 0 0
    ∷ row 828 "CEIDVEID" 5 823 Enc.ushort Render.ushort 0 0
    ∷ row 829 "PseudowireSignaling" 23 761 Enc.uchar Render.uchar 0 2
    ∷ row 830 "SOAMSubtype" 24 761 Enc.nothing Render.aggregate 0 0
    ∷ row 831 "MEPConfiguration" 1 830 Enc.nothing Render.aggregate 0 0
    ∷ row 832 "MDLevel" 1 831 Enc.uchar Render.uchar 0 7
    ∷ row 833 "MDName" 2 831 Enc.string Render.string 2 16
    ∷ row 834 "MAName" 3 831 Enc.string Render.string 2 28
    ∷ row 835 "MEPID" 4 831 Enc.ushort Render.ushort 1 8191
    ∷ row 836 "RemoteMEPConfiguration" 2 830 Enc.nothing Render.aggregate 0 0
    ∷ row 837 "RemoteMDLevel" 1 836 Enc.uchar Render.uchar 0 7
    ∷ row 838 "RemoteMDName" 2 836 Enc.string Render.string 2 16
    ∷ []
